-- ===== src/Db/Models.antt =====
-- server/db/generated/models.go and the tables of server/db/migrations/*.up.sql.
use screenspace.Base.{ℕ, String, Bool, Option, none, some, List, ℤ, pos, negsuc, take, drop}

-- `User`; a UUID is the number that its 16 bytes make, a time is in nanoseconds.
pub record User : Type 0 where
  pub id : ℕ
  pub email : String
  pub password_hash : String
  pub role : String
  pub banned : Bool
  pub created_at : ℕ

-- `Wallpaper`, over the type of its category: a nullable text in the table, a plain text in the
-- rows that the queries return. The duration is the bit pattern of a 64-bit float.
pub record WallpaperOf (C : Type 0) : Type 0 where
  pub id : ℕ
  pub title : String
  pub uploader_id : ℕ
  pub status : String
  pub category : C
  pub tags : List String
  pub resolution : String
  pub width : ℤ
  pub height : ℤ
  pub duration : ℕ
  pub file_size : ℤ
  pub format : String
  pub download_count : ℕ
  pub storage_key : String
  pub thumbnail_key : String
  pub preview_key : String
  pub rejection_reason : Option String
  pub created_at : ℕ
  pub updated_at : ℕ

abbrev pub Wallpaper : Type 0
Wallpaper = WallpaperOf (Option String)

-- `GetWallpaperByIDRow`, `ListWallpapersRecentRow` and the other rows: COALESCE(category, '').
abbrev pub WallpaperRow : Type 0
WallpaperRow = WallpaperOf String

pub record Favorite : Type 0 where
  pub user_id : ℕ
  pub wallpaper_id : ℕ
  pub created_at : ℕ

pub record Report : Type 0 where
  pub id : ℕ
  pub wallpaper_id : ℕ
  pub reporter_id : ℕ
  pub reason : String
  pub status : String
  pub created_at : ℕ

pub record Database : Type 0 where
  pub users : List User
  pub wallpapers : List Wallpaper
  pub favorites : List Favorite
  pub reports : List Report

-- The errors of a query: no row to scan, a broken constraint, a number out of range, and a
-- database that cannot be reached.
pub data DbError : Type 0 where
  no_rows unique_violation foreign_key_violation out_of_range unavailable : DbError

pub data Reply (A : Type 0) : Type 0 where
  done : A → Reply A
  failed : DbError → Reply A

-- A `:one` query scans the first row.
abbrev pub one : {A : Type 0} → Option A → Reply A
one none = failed no_rows
one (some a) = done a

-- LIMIT and OFFSET; PostgreSQL refuses a negative one.
unfoldable pub page : {A : Type 0} → ℤ → ℤ → List A → Reply (List A)
page (pos lim) (pos off) xs = done (take lim (drop off xs))
page (pos lim) (negsuc off) xs = failed out_of_range
page (negsuc lim) off xs = failed out_of_range
