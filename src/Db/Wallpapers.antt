-- ===== src/Db/Wallpapers.antt =====
-- server/db/generated/wallpaper.sql.go.
pub mod Laws
pub mod Statuses
pub mod Listing
pub mod Sorted
use screenspace.Base.{
  ℕ, String, ◌≡◌, refl, Bool, true, false, not, ◌&&◌, ◌||◌, Option, none, some, List, [], ◌∷◌, ◌++◌,
  ◌+◌, ◌-◌, ◌^◌, ℤ, pos, arith, ◌==◌, str_eq, if◌then◌else◌, find, any, filter, map_if, leb, ltb,
  length, map,
}
use screenspace.Db.Models.{
  User, WallpaperOf, Wallpaper, WallpaperRow, Database, Reply, done, failed, DbError,
  unique_violation, foreign_key_violation, out_of_range, no_rows, one, page,
}
use screenspace.Db.Order.{order_by}
use screenspace.Db.Users.{user_id_is}
use screenspace.Types.{status_pending}

abbrev pub wallpaper_id_is : ℕ → Wallpaper → Bool
wallpaper_id_is id w = w.id == id

-- The columns of a RETURNING or SELECT list: COALESCE(category, '').
abbrev pub to_row : Wallpaper → WallpaperRow
to_row w = record {
  id = w.id;
  title = w.title;
  uploader_id = w.uploader_id;
  status = w.status;
  category = elim w.category [ none ↦ "" | some c ↦ c ];
  tags = w.tags;
  resolution = w.resolution;
  width = w.width;
  height = w.height;
  duration = w.duration;
  file_size = w.file_size;
  format = w.format;
  download_count = w.download_count;
  storage_key = w.storage_key;
  thumbnail_key = w.thumbnail_key;
  preview_key = w.preview_key;
  rejection_reason = w.rejection_reason;
  created_at = w.created_at;
  updated_at = w.updated_at;
}

-- The row of an INSERT, with the defaults of the table.
abbrev pub new_wallpaper : ℕ → ℕ → String → ℕ → String → Option String → Wallpaper
new_wallpaper id now title uploader_id storage_key category = record {
  id = id;
  title = title;
  uploader_id = uploader_id;
  status = status_pending;
  category = category;
  tags = [];
  resolution = "";
  width = pos 0;
  height = pos 0;
  duration = 0;
  file_size = pos 0;
  format = "";
  download_count = 0;
  storage_key = storage_key;
  thumbnail_key = "";
  preview_key = "";
  rejection_reason = none;
  created_at = now;
  updated_at = now;
}

-- `CreateWallpaper`: the key is unique, and the uploader is a user.
unfoldable pub create_wallpaper :
    ℕ → ℕ → String → ℕ → String → Option String → Database → Reply WallpaperRow × Database
create_wallpaper id now title uploader_id storage_key category db =
    let w = new_wallpaper id now title uploader_id storage_key category in
    if any (wallpaper_id_is id) db.wallpapers
    then (failed unique_violation, db)
    else if any (user_id_is uploader_id) db.users
    then (done (to_row w), record db { wallpapers = db.wallpapers ++ w ∷ [] })
    else (failed foreign_key_violation, db)

abbrev pub find_wallpaper : ℕ → Database → Option Wallpaper
find_wallpaper id db = find (wallpaper_id_is id) db.wallpapers

-- `GetWallpaperByID`
unfoldable pub get_wallpaper_by_id : ℕ → Database → Reply WallpaperRow
get_wallpaper_by_id id db = elim (find_wallpaper id db) [
  | none ↦ failed no_rows
  | some w ↦ done (to_row w)
]

-- UPDATE wallpapers SET ... WHERE id = $n
unfoldable pub update_wallpaper : ℕ → (Wallpaper → Wallpaper) → Database → Database
update_wallpaper id f db = record db { wallpapers = map_if (wallpaper_id_is id) f db.wallpapers }

-- `UpdateWallpaperStatus`
unfoldable pub update_wallpaper_status : ℕ → String → ℕ → Database → Reply (Unit {0}) × Database
unfolding update_wallpaper
update_wallpaper_status now status id db =
    (done tt, update_wallpaper id (λ w. record w { status = status; updated_at = now }) db)

-- `UpdateWallpaperStatusWithReason`
unfoldable pub update_wallpaper_status_with_reason :
    ℕ → String → Option String → ℕ → Database → Reply (Unit {0}) × Database
unfolding update_wallpaper
update_wallpaper_status_with_reason now status reason id db = (
  done tt,
  update_wallpaper id
      (λ w. record w { status = status; rejection_reason = reason; updated_at = now }) db,
)

-- `UpdateWallpaperMetadata`
unfoldable pub update_wallpaper_metadata :
    ℕ → String → Option String → List String → ℕ → Database → Reply (Unit {0}) × Database
unfolding update_wallpaper
update_wallpaper_metadata now title category tags id db = (
  done tt,
  update_wallpaper id
      (λ w. record w { title = title; category = category; tags = tags; updated_at = now }) db,
)

-- `UpdateWallpaperAfterFinalizeParams`, without the key.
pub record FinalizeParams : Type 0 where
  pub width : ℤ
  pub height : ℤ
  pub duration : ℕ
  pub file_size : ℤ
  pub format : String
  pub resolution : String
  pub thumbnail_key : String
  pub preview_key : String
  pub status : String

abbrev pub finalize_wallpaper : ℕ → FinalizeParams → Wallpaper → Wallpaper
finalize_wallpaper now p w = record w {
  width = p.width;
  height = p.height;
  duration = p.duration;
  file_size = p.file_size;
  format = p.format;
  resolution = p.resolution;
  thumbnail_key = p.thumbnail_key;
  preview_key = p.preview_key;
  status = p.status;
  updated_at = now;
}

-- `UpdateWallpaperAfterFinalize`
unfoldable pub update_wallpaper_after_finalize :
    ℕ → FinalizeParams → ℕ → Database → Reply WallpaperRow × Database
unfolding update_wallpaper
update_wallpaper_after_finalize now p id db = elim (find_wallpaper id db) [
  | none ↦ (failed no_rows, db)
  | some w ↦ (
    done (to_row (finalize_wallpaper now p w)),
    update_wallpaper id (finalize_wallpaper now p) db,
  )
]

-- `UpdateWallpaperStorageKey`
unfoldable pub update_wallpaper_storage_key :
    ℕ → String → ℕ → Database → Reply (Unit {0}) × Database
unfolding update_wallpaper
update_wallpaper_storage_key now storage_key id db = (
  done tt,
  update_wallpaper id (λ w. record w { storage_key = storage_key; updated_at = now }) db,
)

-- The largest BIGINT.
abbrev pub max_bigint : ℕ
max_bigint = 2 ^ 63 - 1

-- `IncrementDownloadCount`: the sum must be a BIGINT.
unfoldable pub increment_download_count : ℕ → Database → Reply (Unit {0}) × Database
unfolding update_wallpaper
increment_download_count id db =
    if any (λ w. wallpaper_id_is id w && leb max_bigint w.download_count) db.wallpapers
    then (failed out_of_range, db)
    else (done tt, update_wallpaper id (λ w. record w { download_count = w.download_count + 1 }) db)

-- `DeleteWallpaper`: the favorites and the reports of the wallpaper go with it (ON DELETE CASCADE).
unfoldable pub delete_wallpaper : ℕ → Database → Reply (Unit {0}) × Database
delete_wallpaper id db = (
  done tt,
  record db {
    wallpapers = filter (λ w. not (wallpaper_id_is id w)) db.wallpapers;
    favorites = filter (λ f. not (f.wallpaper_id == id)) db.favorites;
    reports = filter (λ r. not (r.wallpaper_id == id)) db.reports;
  },
)

module _ (ilike : String → String → Bool) where
  -- `$n IS NULL OR column ILIKE $n`; a null column matches nothing.
  abbrev matches_opt : Option String → Option String → Bool
  matches_opt none column = true
  matches_opt (some pattern) none = false
  matches_opt (some pattern) (some text) = ilike text pattern

  abbrev pub selected : String → Option String → Option String → Wallpaper → Bool
  selected status category query w =
      str_eq w.status status && matches_opt category w.category && matches_opt query (some w.title)

  -- `CountWallpapers`
  unfoldable pub count_wallpapers : String → Option String → Option String → Database → Reply ℕ
  count_wallpapers status category query db =
      done (length (filter (selected status category query) db.wallpapers))

  -- ORDER BY created_at DESC
  abbrev pub newer : Wallpaper → Wallpaper → Bool
  newer v w = leb w.created_at v.created_at

  -- ORDER BY download_count DESC, created_at DESC
  abbrev pub more_popular : Wallpaper → Wallpaper → Bool
  more_popular v w =
      if v.download_count == w.download_count
      then leb w.created_at v.created_at
      else ltb w.download_count v.download_count

  abbrev pub rows : Reply (List Wallpaper) → Reply (List WallpaperRow)
  rows (done ws) = done (map to_row ws)
  rows (failed e) = failed e

  module _ (ties : ℤ → ℤ → ℕ → ℕ) where
    -- `ListWallpapersRecent`
    unfoldable pub list_wallpapers_recent :
        String → Option String → Option String → ℤ → ℤ → Database → Reply (List WallpaperRow)
    unfolding order_by page
    list_wallpapers_recent status category query lim off db = rows (
        page lim off (
          order_by (λ w. ties lim off w.id) newer
            (filter (selected status category query) db.wallpapers)))

    -- `ListWallpapersPopular`
    unfoldable pub list_wallpapers_popular :
        String → Option String → Option String → ℤ → ℤ → Database → Reply (List WallpaperRow)
    unfolding order_by page
    list_wallpapers_popular status category query lim off db = rows (
        page lim off (
          order_by (λ w. ties lim off w.id) more_popular
            (filter (selected status category query) db.wallpapers)))
