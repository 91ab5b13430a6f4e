-- ===== src/Seed/Run.antt =====
-- server/cmd/seed/seed.go: `seeder`, on the tables and the store of the server.
use Prim.Native.String.{◌++◌ as append}
use screenspace.Base.{
  ℕ, String, Bool, Option, none, some, List, [], ◌∷◌, take, str_eq, if◌then◌else◌, not,
}
use screenspace.Apperr.{internal}
use screenspace.Types.{role_user, role_admin}
use screenspace.Config.{Config}
use screenspace.Strconv.{show_int}
use screenspace.Db.Models.{Reply, done, failed, DbError}
use screenspace.Db.Users.{get_user_by_email, create_user}
use screenspace.Server.Env.{Env, ProbeResult}
use screenspace.Server.World.{World}
use screenspace.Server.Exec.{
  Exec, Result, ok, err, panicked, pure, throw, throw_if, or_throw, deferred, call, modify, write,
  read, reply_or, ◌>>=◌, ◌>>◌,
}
use screenspace.Service.Auth.{hash_password}
use screenspace.Service.Wallpaper.{upload, object_key, add_file, remove_file}
use screenspace.Seed.Videos.{SeedVideo}
use screenspace.Seed.Queries.{
  wallpaper_by_title, seeded_wallpaper, insert_wallpaper, insert_favorite_once,
}
use screenspace.Seed.Footage.{Tools, fetch}

-- err == nil, and the row; or no row; or another error.
abbrev pub found_or : {A B : Type 0} → (A → Exec B) → Exec B → String → Reply A → Exec B
found_or found missing label (done a) = found a
found_or found missing label (failed DbError.no_rows) = missing
found_or found missing label (failed _) = throw (internal label)

-- An error is logged, and the loop goes on.
unfoldable pub attempted : {A : Type 0} → Result A → World → Result (Option A) × World
attempted (ok a) w = (ok (some a), w)
attempted (err e) w = (ok none, w)
attempted panicked w = (panicked, w)

unfoldable pub attempt : {A : Type 0} → Exec A → Exec (Option A)
unfolding attempted
attempt m w = let (r, w') = m w in attempted r w'

abbrev pub with_some : {A : Type 0} → Option A → List A → List A
with_some none xs = xs
with_some (some x) xs = x ∷ xs

abbrev pub user_email : String
user_email = "user@screenspace.dev"

module _ (env : Env) where
  -- `addFavorite`
  unfoldable pub add_favorite : ℕ → ℕ → Exec (Unit {0})
  add_favorite user_id wallpaper_id = do
    inserted ← write env (λ n. insert_favorite_once (env.db_now n) user_id wallpaper_id)
    reply_or inserted (internal "insert favorite")

  -- The loop over the favorites.
  unfoldable pub favor_all : ℕ → List ℕ → Exec (Unit {0})
  favor_all user_id [] = pure tt
  favor_all user_id (id ∷ ids) = attempt (add_favorite user_id id) >>= λ _. favor_all user_id ids

module _ (env : Env) (cfg : Config) where
  -- The end of `seedUser`, for an email without an account.
  unfoldable pub insert_user : String → String → String → Exec ℕ
  insert_user email password role = do
    hashed ← hash_password env cfg password
    hash ← or_throw hashed (internal "hash password")
    inserted ← write env (λ n. create_user (env.new_uuid n) (env.db_now n) email hash role)
    u ← reply_or inserted (internal "insert user")
    pure u.id

  -- `seedUser`
  unfoldable pub seed_user : String → String → String → Exec ℕ
  seed_user email password role = do
    row ← read env (get_user_by_email email)
    found_or (λ u. pure u.id) (insert_user email password role) "check user" row

module _ (env : Env) (tools : Tools) where
  -- `uploadFile`, with the label under which its error is wrapped.
  abbrev pub upload_file : String → String → String → Exec (Unit {0})
  upload_file key content_type label = upload env key content_type label label

  -- A run of ffmpeg for an asset.
  abbrev pub made : (ℕ → Bool) → String → Exec (Unit {0})
  made run label = call run >>= λ b. throw_if (not b) (internal label)

  abbrev format_or_h264 : String → String
  format_or_h264 format = if str_eq format "" then "h264" else format

  -- The end of `seedWallpaper`, once the video has been probed.
  unfoldable pub publish_seed : SeedVideo → ℕ → ProbeResult → Exec ℕ
  publish_seed v uploader_id info = do
    wp_id ← call env.new_uuid
    let storage_key = object_key env wp_id "original.mp4"
    let thumb_key = object_key env wp_id "thumb.jpg"
    let preview_key = object_key env wp_id "preview.mp4"
    upload_file storage_key "video/mp4" "upload video"
    upload_file thumb_key "image/jpeg" "upload thumbnail"
    upload_file preview_key "video/mp4" "upload preview"
    let resolution = append (show_int info.width) (append "x" (show_int info.height))
    inserted ← write env (λ n. insert_wallpaper (
        seeded_wallpaper wp_id (env.db_now n) v.title uploader_id v.category v.tags resolution info
          (format_or_h264 info.format) v.downloads storage_key thumb_key preview_key))
    reply_or inserted (internal "insert wallpaper")

  -- What `seedWallpaper` does in its temporary directory.
  unfoldable pub produce : SeedVideo → ℕ → String → Exec ℕ
  produce v uploader_id tmp_dir = do
    let video_path = append tmp_dir "/video.mp4"
    fetch tools v video_path
    let thumb_path = append tmp_dir "/thumb.jpg"
    let preview_path = append tmp_dir "/preview.mp4"
    made (λ n. env.generate_thumbnail n video_path thumb_path) "generate thumbnail"
    made (λ n. env.generate_preview n video_path preview_path) "generate preview"
    probed ← call (λ n. env.probe n video_path)
    info ← or_throw probed (internal "probe video")
    publish_seed v uploader_id info

  -- `seedWallpaper`, for a title that is not there; the directory is removed with its files.
  unfoldable pub insert_video : SeedVideo → ℕ → Exec ℕ
  insert_video v uploader_id = do
    created ← call tools.make_dir
    tmp_dir ← or_throw created (internal "create temp dir")
    modify (add_file tmp_dir)
    deferred (produce v uploader_id tmp_dir) (remove_file tmp_dir)

  -- `seedWallpaper`
  unfoldable pub seed_wallpaper : SeedVideo → ℕ → Exec ℕ
  seed_wallpaper v uploader_id = do
    row ← read env (wallpaper_by_title v.title)
    found_or (λ w. pure w.id) (insert_video v uploader_id) "check existing" row

  -- The loop over the videos: the ids of the wallpapers that are there.
  unfoldable pub seed_all : List SeedVideo → ℕ → Exec (List ℕ)
  seed_all [] uploader_id = pure []
  seed_all (v ∷ vs) uploader_id = attempt (seed_wallpaper v uploader_id) >>= λ id.
      seed_all vs uploader_id >>= λ ids. pure (with_some id ids)

  module _ (cfg : Config) where
    -- `run`
    unfoldable pub run : List SeedVideo → String → Exec (Unit {0})
    run vs admin_email = do
      admin_id ← seed_user env cfg admin_email "password" role_admin
      user_id ← seed_user env cfg user_email "password" role_user
      ids ← seed_all vs admin_id
      favor_all env user_id (take 3 ids)
