-- ===== src/Routes/Privileges.antt =====
-- What a request without an admin's token cannot change.
pub mod Rights
use screenspace.Base.{
  ℕ, String, ◌≡◌, refl, sym, ◌∙◌, true, false, Option, some, List, [], ◌∷◌, ◌++◌, any, find, arith,
  str_eq, ◌==◌, Bool-cases, Option-cases, inl, inr, ◌⊎◌, leb, ◌&&◌, find-append, none, All,
}
use screenspace.Types.{status_pending, status_pending_review, status_approved, status_rejected}
use screenspace.Config.{Config}
use screenspace.Db.Models.{User, Wallpaper, Database}
use screenspace.Db.Users.{user_id_is, new_user, create_user}
use screenspace.Db.Wallpapers.{
  wallpaper_id_is, find_wallpaper, new_wallpaper, update_wallpaper, create_wallpaper,
  update_wallpaper_storage_key, update_wallpaper_after_finalize, increment_download_count,
  max_bigint, FinalizeParams,
}
use screenspace.Db.Wallpapers.Laws.{find-update_wallpaper, updated}
use screenspace.Db.Favorites.{insert_favorite, delete_favorite}
use screenspace.Db.Reports.{create_report}
use screenspace.Server.Env.{Env}
use screenspace.Server.World.{World}
use screenspace.Server.Exec.Keeps.{IsPreorder}
use screenspace.Server.Request.{Request, Handler}
use screenspace.Service.Auth.{TokenClaims, validate_token}
use screenspace.Service.Wallpaper.Keeps.{finalize-Keeps}
use screenspace.Strconv.{after_prefix}
use screenspace.Middleware.Checks.Guards.{admin_route-IsRefused}
use screenspace.Handler.Adapter.{wrap}
use screenspace.Handler.Keeps.Writes.{UserSteps}
use screenspace.Routes.{
  Route, get_queue, post_approve, post_reject, get_all, patch_wallpaper, get_users, post_ban,
  post_unban, post_promote, get_reports, post_dismiss, needs_admin, serve, serve_all, admin_route,
}
use screenspace.Routes.Untouched.{
  users-create_wallpaper, users-insert_favorite, users-create_report, wallpapers-create_user,
  wallpapers-insert_favorite, wallpapers-create_report,
}
use screenspace.Routes.Served.{user_serve-Keeps}
use screenspace.Routes.Privileges.Rights.{Unprivileged, Unprivileged-order, Unprivileged-steps}

module _ (env : Env) (cfg : Config) where
  -- No token of the request is accepted as an admin's, at any time.
  abbrev pub IsUserRequest : Request → Type 0
  IsUserRequest r =
      (now : ℕ) (token : String) (claims : TokenClaims)
      → after_prefix "Bearer " r.authorization ≡ some token
      → validate_token env cfg now token ≡ some claims
      → str_eq claims.role "admin" ≡ false

  module _ (t : ℕ) where
    refused :
        (h : Handler) (r : Request) (w : World)
        → IsUserRequest r
        → Unprivileged w.db (admin_route env cfg t h r w).1.db
    unfolding admin_route
    refused h r w plain =
        let (response, answer, code, same) =
          admin_route-IsRefused env cfg (wrap h) r w
            (λ token claims sent valid. plain (env.clock w.calls) token claims sent valid) in
        rw same (Unprivileged-order.same w.db)

    admin_serve-Unprivileged :
        (route : Route)
        → needs_admin route ≡ true
        → (r : Request) (w : World) → IsUserRequest r
        → Unprivileged w.db (serve env cfg t route r w).1.db
    unfolding serve
    admin_serve-Unprivileged get_queue needs r w plain = refused _ r w plain
    admin_serve-Unprivileged post_approve needs r w plain = refused _ r w plain
    admin_serve-Unprivileged post_reject needs r w plain = refused _ r w plain
    admin_serve-Unprivileged get_all needs r w plain = refused _ r w plain
    admin_serve-Unprivileged patch_wallpaper needs r w plain = refused _ r w plain
    admin_serve-Unprivileged get_users needs r w plain = refused _ r w plain
    admin_serve-Unprivileged post_ban needs r w plain = refused _ r w plain
    admin_serve-Unprivileged post_unban needs r w plain = refused _ r w plain
    admin_serve-Unprivileged post_promote needs r w plain = refused _ r w plain
    admin_serve-Unprivileged get_reports needs r w plain = refused _ r w plain
    admin_serve-Unprivileged post_dismiss needs r w plain = refused _ r w plain
    admin_serve-Unprivileged _ needs r w plain = absurd (cc)

    serve-Unprivileged :
        (route : Route) (r : Request) (w : World)
        → IsUserRequest r
        → Unprivileged w.db (serve env cfg t route r w).1.db
    serve-Unprivileged route r w plain = elim (Bool-cases (needs_admin route)) [
      | inl needs ↦ admin_serve-Unprivileged route needs r w plain
      | inr open_to_all ↦
          (user_serve-Keeps env cfg t Unprivileged-order (Unprivileged-steps env cfg) route
              open_to_all r).at
            w
    ]

    -- Whatever requests the server answers, one after the other, if no token among them is accepted
    -- as an admin's, then every account is still there with its role and its ban, and every
    -- wallpaper that is approved or rejected afterwards was so before.
    pub serve_all-Unprivileged :
        (requests : List (Route × Request)) (w : World)
        → All (λ x. IsUserRequest x.1) requests
        → Unprivileged w.db (serve_all env cfg t requests w).db
    unfolding serve_all
    serve_all-Unprivileged [] w plain = Unprivileged-order.same w.db
    serve_all-Unprivileged ((route, r) ∷ rest) w plain =
        let w' = (serve env cfg t route r w).1 in
        Unprivileged-order.then_also w.db w'.db (serve_all env cfg t rest w').db
          (serve-Unprivileged route r w plain.0) (serve_all-Unprivileged rest w' plain.1)
