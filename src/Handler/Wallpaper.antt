-- ===== src/Handler/Wallpaper.antt =====
-- server/internal/handler/wallpaper.go: `WallpaperHandler`.
pub mod Created
pub mod Downloaded
use Prim.Native.String.{len, ◌++◌ as append}
use screenspace.Base.{
  ℕ, ◌-◌, ◌*◌, ◌/◌, String, not, ◌&&◌, Option, some, List, ℤ, pos, int32, ltb_ℤ, str_eq,
  if◌then◌else◌, map,
}
use screenspace.Apperr.{bad_request, internal}
use screenspace.Types.{
  status_approved, all_categories, category_valid, sort_recent, sort_popular, sort_valid,
}
use screenspace.Config.{Config}
use screenspace.Strconv.{show_int}
use screenspace.Db.Models.{WallpaperRow, Database, Reply}
use screenspace.Db.Wallpapers.{
  create_wallpaper, update_wallpaper_storage_key, increment_download_count, count_wallpapers,
  list_wallpapers_recent, list_wallpapers_popular,
}
use screenspace.Middleware.BannedCache.{second}
use screenspace.Server.Env.{Env}
use screenspace.Server.Exec.{
  Exec, pure, or_throw, throw_if, ◌>>=◌, ◌>>◌, call, write, read, reply_or,
}
use screenspace.Server.Json.{Response, json, obj, arr, field, end, text, items, paginated}
use screenspace.Server.Request.{Request, Form, Handler, get}
use screenspace.Service.Wallpaper.{object_key, finalize, get_approved}
use screenspace.Respond.{Pagination, parse_pagination}
use screenspace.Handler.Adapter.{claims_user, parsed_uuid, decode_json, each}
use screenspace.Handler.Rows.{WallpaperHandler, ptr_or_nil, wallpaper_row_to_response, row_to_map}

abbrev pub default_page : Config → Request → Pagination
default_page cfg r = parse_pagination r cfg.default_page_size cfg.max_page_size

-- {name: value}
abbrev pub one_text : String → String → Response
one_text name value = json 200 (obj (field name (text value) end))

module _ (env : Env) (h : WallpaperHandler) where
  -- `Health`: the queries of sqlc have no method `Ping`, so the test for one fails, and the
  -- database is never asked.
  unfoldable pub health : Handler
  health r = do
    now ← call env.clock
    let uptime = env.show_duration ((now - h.start_time) / second * second)
    pure (
        json 200 (
          obj (
            field "status" (text "ok")
              (field "db" (text "ok") (field "uptime" (text uptime) end)))))

  -- `Get`
  unfoldable pub get_wallpaper : Handler
  get_wallpaper r = do
    id ← parsed_uuid env r.id (bad_request "invalid wallpaper id")
    wp ← get_approved env id
    body ← wallpaper_row_to_response env h wp
    pure (json 200 body)

  -- The order that a listing uses.
  abbrev pub sort_of : String → Request → String
  sort_of force_sort r =
      if not (str_eq force_sort "")
      then force_sort
      else if sort_valid (get "sort" r)
      then get "sort" r
      else sort_recent

  -- The query of a listing in an order.
  abbrev pub listing :
      String → Option String → Option String → ℤ → ℤ → Database → Reply (List WallpaperRow)
  listing sort category query lim off =
      if str_eq sort sort_popular
      then list_wallpapers_popular env.ilike env.tie_rank status_approved category query lim off
      else list_wallpapers_recent env.ilike env.tie_rank status_approved category query lim off

  -- `list`
  unfoldable pub list : String → Handler
  list force_sort r = do
    let pg = default_page h.cfg r
    let category = ptr_or_nil (get "category" r)
    let query = ptr_or_nil (get "q" r)
    counted ← read env (count_wallpapers env.ilike status_approved category query)
    total ← reply_or counted (internal "count wallpapers")
    listed ←
        read env (listing (sort_of force_sort r) category query (int32 pg.limit) (int32 pg.offset))
    rows ← reply_or listed (internal "list wallpapers")
    xs ← each (row_to_map env (some h)) rows
    pure (paginated xs total pg.limit pg.offset)

  -- `List`, `Popular`, `Recent`
  abbrev pub list_all : Handler
  list_all = list ""

  abbrev pub popular : Handler
  popular = list sort_popular

  abbrev pub recent : Handler
  recent = list sort_recent

  abbrev title_too_long : String
  title_too_long =
      append "title must be " (append (show_int h.cfg.max_title_length) " characters or fewer")

  -- `Create`, after the checks of the body.
  unfoldable pub create_row : ℕ → Form → Exec Response
  create_row uploader_id req = do
    created ← write env (λ n.
        create_wallpaper (env.new_uuid n) (env.db_now n) req.title uploader_id "pending"
          (ptr_or_nil req.category))
    wp ← reply_or created (internal "create wallpaper")
    let storage_key = object_key env wp.id "original.mp4"
    updated ← write env (λ n. update_wallpaper_storage_key (env.db_now n) storage_key wp.id)
    reply_or updated (internal "update storage key")
    signed ← call (λ n. env.presigned_upload_url n storage_key h.cfg.presigned_upload_expiry)
    upload_url ← or_throw signed (internal "presign upload url")
    pure (
        json 201 (
          obj
            (field "id" (text (env.uuid_string wp.id)) (field "upload_url" (text upload_url) end))))

  -- `Create`
  unfoldable pub create : Handler
  create r = do
    req ← decode_json r
    throw_if (str_eq req.title "") (bad_request "title is required")
    throw_if (ltb_ℤ h.cfg.max_title_length (pos (len req.title))) (bad_request title_too_long)
    throw_if (not (str_eq req.category "") && not (category_valid req.category))
        (bad_request "invalid category")
    user ← claims_user r
    uploader_id ← parsed_uuid env user (internal "parse user id")
    create_row uploader_id req

  -- `Finalize`
  unfoldable pub finalize_wallpaper : Handler
  finalize_wallpaper r = do
    id ← parsed_uuid env r.id (bad_request "invalid wallpaper id")
    user ← claims_user r
    user_id ← parsed_uuid env user (internal "parse user id")
    wp ← finalize env h.cfg id user_id
    pure (one_text "status" wp.status)

  -- `Download`: a count that fails is only logged.
  unfoldable pub download : Handler
  download r = do
    id ← parsed_uuid env r.id (bad_request "invalid wallpaper id")
    wp ← get_approved env id
    signed ← call (λ n. env.presigned_url n wp.storage_key h.cfg.presigned_download_expiry)
    url ← or_throw signed (internal "presign download url")
    counted ← write env (λ n. increment_download_count wp.id)
    pure (one_text "download_url" url)

-- `ListCategories`
unfoldable pub list_categories : Handler
list_categories r = pure (json 200 (arr (items (map text all_categories))))
