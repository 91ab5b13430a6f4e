-- ===== src/Service/Wallpaper/Interleaved.antt =====
-- server/internal/service/wallpaper.go: `Finalize`, `Approve` and `Reject` when requests run at the
-- same time. Each reads the row and tests it, and its UPDATE comes later; other requests may run
-- between the two, one query at a time.
pub mod Others
pub mod Order
pub mod Race
use screenspace.Base.{
  ℕ, String, ◌≡◌, Bool, true, none, some, Option, List, [], ◌∷◌, ◌++◌, ◌==◌, str_eq,
}
use screenspace.Types.{status_pending, status_pending_review, status_approved, status_rejected}
use screenspace.Config.{Config}
use screenspace.Db.Models.{WallpaperRow, Database, done}
use screenspace.Db.Users.{create_user, set_banned, set_role}
use screenspace.Db.Wallpapers.{
  get_wallpaper_by_id, create_wallpaper, update_wallpaper_status,
  update_wallpaper_status_with_reason, update_wallpaper_storage_key, update_wallpaper_metadata,
  update_wallpaper_after_finalize, increment_download_count,
}
use screenspace.Db.Favorites.{insert_favorite, delete_favorite}
use screenspace.Db.Reports.{create_report, dismiss_report}
use screenspace.Server.Env.{Env, ProbeResult}
use screenspace.Server.World.{World}
use screenspace.Server.Exec.Inversion.{Returns}
use screenspace.Service.Wallpaper.{
  validate_video, finalize_params, download_and_probe, generate_and_upload_assets,
}

-- The UPDATE that a request will make.
pub data Underway : Type 0 where
  approving : ℕ → Underway
  rejecting : ℕ → String → Underway
  publishing : ℕ → ProbeResult → String → String → Underway

-- The tables, the wallpapers that requests of `Finalize` prepare after their test, and the requests
-- before their UPDATE.
pub record Shared : Type 0 where
  pub db : Database
  pub preparing : List ℕ
  pub underway : List Underway

-- The tables after the UPDATE, at a time of the database.
unfoldable pub commit : Env → Config → ℕ → Underway → Database → Database
commit env cfg now (approving id) db = (update_wallpaper_status now status_approved id db).1
commit env cfg now (rejecting id reason) db =
    (update_wallpaper_status_with_reason now status_rejected (some reason) id db).1
commit env cfg now (publishing id info thumbnail_key preview_key) db =
    (update_wallpaper_after_finalize now (finalize_params env cfg info thumbnail_key preview_key) id
      db).1

-- A query with which the handlers of other requests write.
pub data OtherWrite (d : Database) : Database → Type 0 where
  created :
      (id now : ℕ) (title : String) (uploader : ℕ) (key : String) (category : Option String)
      → OtherWrite d (create_wallpaper id now title uploader key category d).1
  keyed :
      (now : ℕ) (key : String) (id : ℕ) → OtherWrite d (update_wallpaper_storage_key now key id d).1
  counted : (id : ℕ) → OtherWrite d (increment_download_count id d).1
  edited :
      (now : ℕ) (title : String) (category : Option String) (tags : List String) (id : ℕ)
      → OtherWrite d (update_wallpaper_metadata now title category tags id d).1
  registered :
      (id now : ℕ) (email hash role : String)
      → OtherWrite d (create_user id now email hash role d).1
  banned : (b : Bool) (id : ℕ) → OtherWrite d (set_banned b id d).1
  promoted : (role : String) (id : ℕ) → OtherWrite d (set_role role id d).1
  favorited : (now u p : ℕ) → OtherWrite d (insert_favorite now u p d).1
  unfavorited : (u p : ℕ) → OtherWrite d (delete_favorite u p d).1
  reported : (id now p u : ℕ) (reason : String) → OtherWrite d (create_report id now p u reason d).1
  dismissed : (id : ℕ) → OtherWrite d (dismiss_report id d).1

-- What `Finalize` does between its test and its UPDATE: the download and the probe, the validation,
-- and the upload of the assets, each in the state that it finds.
pub record Prepared (env : Env) (cfg : Config) (id : ℕ) (info : ProbeResult)
    (thumbnail_key preview_key : String) : Type 0 where
  pub path : String
  pub start : World
  pub probed : World
  pub resumed : World
  pub stored : World
  pub downloaded : Returns (download_and_probe env cfg id) start (path, info) probed
  pub valid : validate_video env cfg info ≡ none
  pub uploaded :
      Returns (generate_and_upload_assets env id path) resumed (thumbnail_key, preview_key) stored

-- The steps of `Finalize` before its UPDATE.
pub data FinalizeStep (env : Env) (cfg : Config) (s : Shared) : Shared → Type 0 where
  finalize_tested :
      (id user_id : ℕ) (row : WallpaperRow)
      → get_wallpaper_by_id id s.db ≡ done row
      → (row.uploader_id == user_id) ≡ true
      → str_eq row.status status_pending ≡ true
      → FinalizeStep env cfg s (record s { preparing = id ∷ s.preparing })
  finalize_prepared :
      (before : List ℕ) (id : ℕ) (rest : List ℕ) (info : ProbeResult)
      (thumbnail_key preview_key : String)
      → s.preparing ≡ before ++ id ∷ rest
      → Prepared env cfg id info thumbnail_key preview_key
      → FinalizeStep env cfg s (record s {
        preparing = before ++ rest;
        underway = publishing id info thumbnail_key preview_key ∷ s.underway;
      })
  -- An error on the way.
  finalize_failed :
      (before : List ℕ) (id : ℕ) (rest : List ℕ)
      → s.preparing ≡ before ++ id ∷ rest
      → FinalizeStep env cfg s (record s { preparing = before ++ rest })

pub data Step (env : Env) (cfg : Config) (s : Shared) : Shared → Type 0 where
  approve_tested :
      (id : ℕ) (row : WallpaperRow)
      → get_wallpaper_by_id id s.db ≡ done row
      → str_eq row.status status_pending_review ≡ true
      → Step env cfg s (record s { underway = approving id ∷ s.underway })
  reject_tested :
      (id : ℕ) (reason : String) (row : WallpaperRow)
      → get_wallpaper_by_id id s.db ≡ done row
      → str_eq row.status status_pending_review ≡ true
      → Step env cfg s (record s { underway = rejecting id reason ∷ s.underway })
  finalizes : (t : Shared) → FinalizeStep env cfg s t → Step env cfg s t
  committed :
      (now : ℕ) (before : List Underway) (u : Underway) (rest : List Underway)
      → s.underway ≡ before ++ u ∷ rest
      → Step env cfg s (record s { db = commit env cfg now u s.db; underway = before ++ rest })
  -- An UPDATE that does not reach the database.
  given_up :
      (before : List Underway) (u : Underway) (rest : List Underway)
      → s.underway ≡ before ++ u ∷ rest
      → Step env cfg s (record s { underway = before ++ rest })
  other_write : (db : Database) → OtherWrite s.db db → Step env cfg s (record s { db = db })

-- Any number of steps.
pub data Reach (env : Env) (cfg : Config) (s : Shared) : Shared → Type 0 where
  here : Reach env cfg s s
  next : {t u : Shared} → Reach env cfg s t → Step env cfg t u → Reach env cfg s u
