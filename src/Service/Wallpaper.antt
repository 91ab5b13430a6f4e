-- ===== src/Service/Wallpaper.antt =====
-- server/internal/service/wallpaper.go: `WallpaperService`.
pub mod Video
pub mod Keeps
pub mod Lifecycle
pub mod Finalized
pub mod Decisions
pub mod Published
pub mod Interleaved
pub mod Clean
pub mod Files
use Prim.Native.String.{◌++◌ as append}
use screenspace.Base.{
  ℕ, String, Bool, true, false, not, ◌&&◌, Option, none, some, List, ◌∷◌, ℤ, pos, ◌==◌, str_eq,
  ltb_ℤ, div_ℤ, int32, suc_int64, if◌then◌else◌, filter, ◌*◌,
}
use screenspace.Types.{status_pending, status_pending_review, status_approved, status_rejected}
use screenspace.Apperr.{Error, not_found, forbidden, bad_request, internal}
use screenspace.Config.{Config}
use screenspace.Float64.{float_gt}
use screenspace.Strconv.{show_int}
use screenspace.Db.Models.{WallpaperRow, Reply, done, failed}
use screenspace.Db.Wallpapers.{
  FinalizeParams, get_wallpaper_by_id, update_wallpaper_after_finalize, update_wallpaper_status,
  update_wallpaper_status_with_reason,
}
use screenspace.Server.Env.{Env, ProbeResult}
use screenspace.Server.World.{World}
use screenspace.Server.Exec.{
  Exec, pure, throw, or_throw, throw_if, ◌>>=◌, ◌>>◌, deferred, call, modify, write, read, reply_or,
}

-- fmt.Sprintf("wallpapers/%s/" + name, id)
abbrev pub object_key : Env → ℕ → String → String
object_key env id name = append "wallpapers/" (append (env.uuid_string id) (append "/" name))

abbrev pub add_file : String → World → World
add_file path w = record w { files = path ∷ w.files }

-- os.Remove
abbrev pub remove_file : String → World → World
remove_file path w = record w { files = filter (λ f. not (str_eq f path)) w.files }

module _ (env : Env) where
  -- `s.store.Put`, of a file that is opened first.
  unfoldable pub upload : String → String → String → String → Exec (Unit {0})
  upload key content_type open_label put_label = do
    opened ← call env.open_file
    throw_if (not opened) (internal open_label)
    stored ← call (λ n. env.store_put n key content_type)
    throw_if (not stored) (internal put_label)
    modify (λ w. record w { objects = key ∷ w.objects })

  -- A run of ffmpeg, and what it leaves at the path of its output.
  unfoldable pub render : (ℕ → String → Bool) → String → String → Exec (Unit {0})
  render run path label = do
    rendered ← call (λ n. run n path)
    partial ← call (λ n. env.leaves_partial n path)
    if rendered
        then modify (add_file path)
        else if partial
        then (modify (add_file path) >> throw (internal label))
        else throw (internal label)

  -- `generateAndUploadAssets`
  unfoldable pub generate_and_upload_assets : ℕ → String → Exec (String × String)
  generate_and_upload_assets id tmp_path = do
    let thumb_path = append tmp_path "_thumb.jpg"
    render (λ n. env.generate_thumbnail n tmp_path) thumb_path "generate thumbnail"
    deferred
        (do
          let preview_path = append tmp_path "_preview.mp4"
          render (λ n. env.generate_preview n tmp_path) preview_path "generate preview"
          deferred
              (do
                let thumbnail_key = object_key env id "thumbnail.jpg"
                upload thumbnail_key "image/jpeg" "open thumbnail" "upload thumbnail"
                let preview_key = object_key env id "preview.mp4"
                upload preview_key "video/mp4" "open preview" "upload preview"
                pure (thumbnail_key, preview_key))
              (remove_file preview_path))
        (remove_file thumb_path)

module _ (env : Env) where
  -- The end of `downloadAndProbe`, by what the prober answered.
  abbrev probed_file : String → Option ProbeResult → Exec (String × ProbeResult)
  probed_file tmp_path none =
      modify (remove_file tmp_path) >> throw (bad_request "failed to probe video")
  probed_file tmp_path (some info) = pure (tmp_path, info)

  unfoldable pub probe_file : String → Exec (String × ProbeResult)
  probe_file tmp_path = do probed ← call (λ n. env.probe n tmp_path); probed_file tmp_path probed

module _ (env : Env) (cfg : Config) where
  -- `downloadAndProbe`
  unfoldable pub download_and_probe : ℕ → Exec (String × ProbeResult)
  download_and_probe id = do
    found ← call (λ n. env.store_get n (object_key env id "original.mp4"))
    throw_if (not found) (not_found "video not found in storage")
    created ← call env.create_temp
    tmp_path ← or_throw created (internal "create temp file")
    modify (add_file tmp_path)
    copied ← call (λ n. env.copy n (suc_int64 cfg.max_file_size))
    if copied
        then probe_file env tmp_path
        else (modify (remove_file tmp_path) >> throw (internal "write temp file"))

  abbrev too_large : String
  too_large =
      append "file too large, max "
        (append (show_int (div_ℤ (div_ℤ cfg.max_file_size 1024) 1024)) "MB")

  abbrev too_long : String
  too_long = append "video too long, max " (append (env.show_float cfg.max_duration) " seconds")

  abbrev too_low : String
  too_low = append "minimum resolution is " (append (show_int cfg.min_height) "p")

  -- `validateVideo`: the error, if there is one.
  unfoldable pub validate_video : ProbeResult → Option Error
  validate_video info =
      if ltb_ℤ cfg.max_file_size info.size
      then some (bad_request too_large)
      else if float_gt info.duration cfg.max_duration
      then some (bad_request too_long)
      else if ltb_ℤ info.height cfg.min_height
      then some (bad_request too_low)
      else if not (str_eq info.format "h264") && not (str_eq info.format "h265")
      then some (bad_request "only h264 and h265 codecs are supported")
      else none

  abbrev pub throw_some : Option Error → Exec (Unit {0})
  throw_some none = pure tt
  throw_some (some e) = throw e

  -- The parameters of the update: the dimensions are cut to 32 bits.
  abbrev pub finalize_params : ProbeResult → String → String → FinalizeParams
  finalize_params info thumbnail_key preview_key = record {
    width = int32 info.width;
    height = int32 info.height;
    duration = info.duration;
    file_size = info.size;
    format = info.format;
    resolution = append (show_int info.width) (append "x" (show_int info.height));
    thumbnail_key = thumbnail_key;
    preview_key = preview_key;
    status = status_pending_review;
  }

  -- What `Finalize` does once the video is on disk.
  unfoldable pub publish : ℕ → String → ProbeResult → Exec WallpaperRow
  publish id tmp_path info = do
    throw_some (validate_video info)
    keys ← generate_and_upload_assets env id tmp_path
    let params = finalize_params info keys.0 keys.1
    updated ← write env (λ n. update_wallpaper_after_finalize (env.db_now n) params id)
    reply_or updated (internal "update after finalize")

  -- `Finalize`
  unfoldable pub finalize : ℕ → ℕ → Exec WallpaperRow
  finalize id user_id = do
    row ← read env (get_wallpaper_by_id id)
    wp ← reply_or row (not_found "wallpaper not found")
    throw_if (not (wp.uploader_id == user_id)) (forbidden "not your wallpaper")
    throw_if (not (str_eq wp.status status_pending))
        (bad_request "wallpaper is not in pending status")
    video ← download_and_probe wp.id
    deferred (publish wp.id video.0 video.1) (remove_file video.0)

module _ (env : Env) where
  -- `GetApproved`
  unfoldable pub get_approved : ℕ → Exec WallpaperRow
  get_approved id = do
    row ← read env (get_wallpaper_by_id id)
    wp ← reply_or row (not_found "wallpaper not found")
    throw_if (not (str_eq wp.status status_approved)) (not_found "wallpaper not found")
    pure wp

  -- `Approve`
  unfoldable pub approve : ℕ → Exec (Unit {0})
  approve id = do
    row ← read env (get_wallpaper_by_id id)
    wp ← reply_or row (not_found "wallpaper not found")
    throw_if (not (str_eq wp.status status_pending_review))
        (bad_request "wallpaper is not in pending_review status")
    updated ← write env (λ n. update_wallpaper_status (env.db_now n) status_approved id)
    reply_or updated (internal "approve wallpaper")

  -- `Reject`
  unfoldable pub reject : ℕ → String → Exec (Unit {0})
  reject id reason = do
    row ← read env (get_wallpaper_by_id id)
    wp ← reply_or row (not_found "wallpaper not found")
    throw_if (not (str_eq wp.status status_pending_review))
        (bad_request "wallpaper is not in pending_review status")
    updated ←
        write env
          (λ n. update_wallpaper_status_with_reason (env.db_now n) status_rejected (some reason) id)
    reply_or updated (internal "reject wallpaper")
