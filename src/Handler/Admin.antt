-- ===== src/Handler/Admin.antt =====
-- server/internal/handler/admin.go: `AdminHandler`.
pub mod Queue
use Prim.Native.String.{◌++◌ as append}
use screenspace.Base.{
  ℕ, suc, String, Bool, true, false, Option, none, some, List, [], ℤ, int32, str_eq, if◌then◌else◌,
  map,
}
use screenspace.Apperr.{Error, not_found, bad_request, internal}
use screenspace.Types.{status_pending_review, status_approved, role_admin}
use screenspace.Config.{Config}
use screenspace.Db.Models.{User, Report}
use screenspace.Db.Users.{
  get_user_by_id, set_banned, set_role, list_users, count_users, list_users_with_search,
  count_users_with_search,
}
use screenspace.Db.Wallpapers.{count_wallpapers, list_wallpapers_recent, update_wallpaper_metadata}
use screenspace.Db.Reports.{list_pending_reports, count_pending_reports, dismiss_report}
use screenspace.Middleware.BannedCache.{evict}
use screenspace.Server.Env.{Env}
use screenspace.Server.Exec.{Exec, pure, throw_if, ◌>>=◌, ◌>>◌, modify, write, read, reply_or}
use screenspace.Server.Json.{Json, Response, json, obj, field, end, text, bool, paginated}
use screenspace.Server.Request.{Request, Handler, get}
use screenspace.Service.Wallpaper.{approve, reject}
use screenspace.Respond.{Pagination}
use screenspace.Handler.Adapter.{claims_user, parsed_uuid, parse_uuid, decode_json, each}
use screenspace.Handler.Rows.{ptr_or_nil, row_to_map}
use screenspace.Handler.Wallpaper.{default_page, one_text}

module _ (env : Env) where
  -- The map of a user, and of a report.
  unfoldable pub user_to_map : User → Json
  user_to_map u = obj (
      field "id" (text (env.uuid_string u.id)) (
        field "email" (text u.email) (
          field "role" (text u.role) (
            field "banned" (bool u.banned)
              (field "created_at" (text (env.show_time u.created_at)) end)))))

  unfoldable pub report_to_map : Report → Json
  report_to_map r = obj (
      field "id" (text (env.uuid_string r.id)) (
        field "wallpaper_id" (text (env.uuid_string r.wallpaper_id)) (
          field "reporter_id" (text (env.uuid_string r.reporter_id)) (
            field "reason" (text r.reason) (
              field "status" (text r.status)
                (field "created_at" (text (env.show_time r.created_at)) end))))))

module _ (env : Env) (cfg : Config) where
  -- The common text of `Queue` and `ListWallpapers`: the rows are made without a handler.
  unfoldable pub list_by_status : String → String → String → Handler
  list_by_status status list_label count_label r = do
    let pg = default_page cfg r
    listed ← read env (
        list_wallpapers_recent env.ilike env.tie_rank status none none (int32 pg.limit)
          (int32 pg.offset))
    rows ← reply_or listed (internal list_label)
    counted ← read env (count_wallpapers env.ilike status none none)
    total ← reply_or counted (internal count_label)
    xs ← each (row_to_map env none) rows
    pure (paginated xs total pg.limit pg.offset)

  -- `Queue`
  unfoldable pub queue : Handler
  queue = list_by_status status_pending_review "list queue" "count queue"

  -- `ListWallpapers`
  unfoldable pub list_wallpapers : Handler
  list_wallpapers r =
      list_by_status (if str_eq (get "status" r) "" then status_approved else get "status" r)
        "list wallpapers" "count wallpapers" r

  -- `ListUsers`
  unfoldable pub users : Handler
  users r = do
    let pg = default_page cfg r
    let search = get "q" r
    let pattern = append "%" (append search "%")
    listed ← read env (
        if str_eq search ""
        then list_users env.tie_rank (int32 pg.limit) (int32 pg.offset)
        else list_users_with_search env.ilike env.tie_rank pattern (int32 pg.limit)
            (int32 pg.offset))
    rows ← reply_or listed (internal "list users")
    counted ←
        read env
          (if str_eq search "" then count_users else count_users_with_search env.ilike pattern)
    total ← reply_or counted (internal "count users")
    pure (paginated (map (user_to_map env) rows) total pg.limit pg.offset)

  -- `ListReports`
  unfoldable pub reports : Handler
  reports r = do
    let pg = default_page cfg r
    listed ← read env (list_pending_reports env.tie_rank (int32 pg.limit) (int32 pg.offset))
    rows ← reply_or listed (internal "list reports")
    counted ← read env count_pending_reports
    total ← reply_or counted (internal "count reports")
    pure (paginated (map (report_to_map env) rows) total pg.limit pg.offset)

module _ (env : Env) where
  -- `Approve`: the service uses the admin's id only for its log.
  unfoldable pub approve_wallpaper : Handler
  approve_wallpaper r = do
    id ← parsed_uuid env r.id (bad_request "invalid wallpaper id")
    user ← claims_user r
    admin_id ← parse_uuid env user
    approve env id
    pure (one_text "status" "approved")

  -- `Reject`
  unfoldable pub reject_wallpaper : Handler
  reject_wallpaper r = do
    id ← parsed_uuid env r.id (bad_request "invalid wallpaper id")
    user ← claims_user r
    admin_id ← parse_uuid env user
    req ← decode_json r
    reject env id req.reason
    pure (one_text "status" "rejected")

  -- if tags == nil { tags = []string{} }
  abbrev pub or_empty : Option (List String) → List String
  or_empty none = []
  or_empty (some tags) = tags

  -- `EditWallpaper`
  unfoldable pub edit_wallpaper : Handler
  edit_wallpaper r = do
    id ← parsed_uuid env r.id (bad_request "invalid wallpaper id")
    req ← decode_json r
    updated ← write env (λ n.
        update_wallpaper_metadata (env.db_now n) req.title (ptr_or_nil req.category)
          (or_empty req.tags) id)
    reply_or updated (internal "update metadata")
    pure (one_text "status" "updated")

  -- `BanUser` and `UnbanUser`, which differ in the value and the labels. The claims are read for
  -- the log.
  unfoldable pub change_banned : Bool → String → String → Handler
  change_banned banned label status r = do
    id ← parsed_uuid env r.id (bad_request "invalid user id")
    found ← read env (get_user_by_id id)
    user ← reply_or found (not_found "user not found")
    changed ← write env (λ n. set_banned banned id)
    reply_or changed (internal label)
    modify (λ w. record w { banned_cache = evict (env.uuid_string id) w.banned_cache })
    admin_id ← claims_user r
    pure (one_text "status" status)

  unfoldable pub ban_user : Handler
  ban_user = change_banned true "ban user" "banned"

  unfoldable pub unban_user : Handler
  unban_user = change_banned false "unban user" "unbanned"

  -- The end of `PromoteUser`.
  unfoldable pub promote : ℕ → Handler
  promote id r = do
    changed ← write env (λ n. set_role role_admin id)
    reply_or changed (internal "promote user")
    admin_id ← claims_user r
    pure (one_text "status" "promoted")

  -- `PromoteUser`
  unfoldable pub promote_user : Handler
  promote_user r = do
    id ← parsed_uuid env r.id (bad_request "invalid user id")
    found ← read env (get_user_by_id id)
    user ← reply_or found (not_found "user not found")
    throw_if user.banned (bad_request "cannot promote a banned user")
    if str_eq user.role role_admin then pure (one_text "status" "promoted") else promote id r

  -- `DismissReport`
  unfoldable pub dismiss : Handler
  dismiss r = do
    id ← parsed_uuid env r.id (bad_request "invalid report id")
    dismissed ← write env (λ n. dismiss_report id)
    reply_or dismissed (internal "dismiss report")
    admin_id ← claims_user r
    pure (one_text "status" "dismissed")
