-- ===== src/Handler/Social.antt =====
-- server/internal/handler/favorite.go and report.go: `FavoriteHandler` and `ReportHandler`.
use screenspace.Base.{String, Option, none, some, pos, map}
use screenspace.Apperr.{bad_request, internal}
use screenspace.Config.{Config}
use screenspace.Db.Models.{WallpaperRow}
use screenspace.Server.Env.{Env}
use screenspace.Server.Exec.{pure, ◌>>=◌}
use screenspace.Server.Json.{
  Json, json, obj, field, end, bool, int, float, null, text, arr, items, paginated,
}
use screenspace.Server.Request.{Handler}
use screenspace.Service.Favorite as FavoriteService
use screenspace.Service.Report as ReportService
use screenspace.Handler.Adapter.{claims_user, parsed_uuid, decode_json, or_internal}
use screenspace.Handler.Wallpaper.{default_page}
use screenspace.Handler.Admin.{report_to_map}

abbrev opt_text : Option String → Json
opt_text none = null
opt_text (some t) = text t

module _ (env : Env) where
  -- `FavoriteHandler.Toggle`
  unfoldable pub toggle_favorite : Handler
  toggle_favorite r = do
    user ← claims_user r
    user_id ← parsed_uuid env user (bad_request "invalid user id")
    wallpaper_id ← parsed_uuid env r.id (bad_request "invalid wallpaper id")
    favorited ← FavoriteService.toggle env user_id wallpaper_id
    pure (json 200 (obj (field "favorited" (bool favorited) end)))

  -- `ListFavoritesByUserRow`, by its tags.
  unfoldable pub favorite_row_to_json : WallpaperRow → Json
  favorite_row_to_json row = obj (
      field "id" (text (env.uuid_string row.id)) (
        field "title" (text row.title) (
          field "uploader_id" (text (env.uuid_string row.uploader_id)) (
            field "status" (text row.status) (
              field "category" (text row.category) (
                field "tags" (arr (items (map text row.tags))) (
                  field "resolution" (text row.resolution) (
                    field "width" (int row.width) (
                      field "height" (int row.height) (
                        field "duration" (float row.duration) (
                          field "file_size" (int row.file_size) (
                            field "format" (text row.format) (
                              field "download_count" (int (pos row.download_count)) (
                                field "storage_key" (text row.storage_key) (
                                  field "thumbnail_key" (text row.thumbnail_key) (
                                    field "preview_key" (text row.preview_key) (
                                      field "rejection_reason" (opt_text row.rejection_reason) (
                                        field "created_at" (text (env.json_time row.created_at)) (
                                          field "updated_at" (text (env.json_time row.updated_at))
                                            end)))))))))))))))))))

module _ (env : Env) (cfg : Config) where
  -- `FavoriteHandler.List`: an error of the service is wrapped once more.
  unfoldable pub list_favorites : Handler
  list_favorites r = do
    user ← claims_user r
    user_id ← parsed_uuid env user (bad_request "invalid user id")
    let pg = default_page cfg r
    listed ←
        or_internal (FavoriteService.list_by_user env user_id pg.limit pg.offset)
          (internal "list favorites")
    pure (paginated (map (favorite_row_to_json env) listed.0) listed.1 pg.limit pg.offset)

  -- `ReportHandler.Create`
  unfoldable pub create_report : Handler
  create_report r = do
    user ← claims_user r
    user_id ← parsed_uuid env user (bad_request "invalid user id")
    wallpaper_id ← parsed_uuid env r.id (bad_request "invalid wallpaper id")
    req ← decode_json r
    report ← ReportService.create env cfg wallpaper_id user_id req.reason
    pure (json 201 (report_to_map env report))
