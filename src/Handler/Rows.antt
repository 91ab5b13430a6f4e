-- ===== src/Handler/Rows.antt =====
-- server/internal/handler/wallpaper.go: a row as a JSON object. Go writes the keys of a map in the
-- order of their names; here they stand in the order in which the code sets them.
use screenspace.Base.{ℕ, String, Option, none, some, pos, str_eq, if◌then◌else◌, map}
use screenspace.Config.{Config}
use screenspace.Db.Models.{WallpaperRow}
use screenspace.Server.Env.{Env}
use screenspace.Server.Exec.{Exec, pure, nil_dereference, ◌>>=◌, call}
use screenspace.Server.Json.{Json, Fields, text, int, float, arr, obj, field, end, items}

-- `WallpaperHandler`: the store, the queries and the service are what `Env` and `World` hold.
pub record WallpaperHandler : Type 0 where
  pub cfg : Config
  pub start_time : ℕ

-- `ptrOrNil`
abbrev pub ptr_or_nil : String → Option String
ptr_or_nil s = if str_eq s "" then none else some s

abbrev pub opt_field : String → Option String → Fields → Fields
opt_field name none rest = rest
opt_field name (some v) rest = field name (text v) rest

module _ (env : Env) where
  -- The fields that every row has, in front of more.
  unfoldable pub row_fields : WallpaperRow → Fields → Fields
  row_fields row rest = field "id" (text (env.uuid_string row.id)) (
      field "title" (text row.title) (
        field "uploader_id" (text (env.uuid_string row.uploader_id)) (
          field "status" (text row.status) (
            field "category" (text row.category) (
              field "tags" (arr (items (map text row.tags))) (
                field "resolution" (text row.resolution) (
                  field "width" (int row.width) (
                    field "height" (int row.height) (
                      field "duration" (float row.duration) (
                        field "file_size" (int row.file_size) (
                          field "format" (text row.format) (
                            field "download_count" (int (pos row.download_count)) (
                              field "created_at" (text (env.show_time row.created_at)) (
                                field "updated_at" (text (env.show_time row.updated_at))
                                  rest))))))))))))))

  -- `h.store.PreSignedURL`, if there is a key: it reads the fields of the handler, which may be
  -- nil. An error of the store leaves the field out.
  unfoldable pub url_of : Option WallpaperHandler → String → Exec (Option String)
  url_of h key = if str_eq key "" then pure none else elim h [
    | none ↦ nil_dereference
    | some x ↦ call (λ n. env.presigned_url n key x.cfg.presigned_download_expiry)
  ]

  -- The fields of the URLs.
  unfoldable pub url_fields : Option WallpaperHandler → WallpaperRow → Exec Fields
  url_fields h row = do
    thumbnail ← url_of h row.thumbnail_key
    preview ← url_of h row.preview_key
    pure (opt_field "thumbnail_url" thumbnail (opt_field "preview_url" preview end))

  -- `wallpaperRowToResponse`
  unfoldable pub wallpaper_row_to_response : WallpaperHandler → WallpaperRow → Exec Json
  wallpaper_row_to_response h row = do
    urls ← url_fields (some h) row
    pure (obj (row_fields row (opt_field "rejection_reason" row.rejection_reason urls)))

  -- `popularRowToMap` and `recentRowToMap`, which have the same text.
  unfoldable pub row_to_map : Option WallpaperHandler → WallpaperRow → Exec Json
  row_to_map h row = do urls ← url_fields h row; pure (obj (row_fields row urls))
