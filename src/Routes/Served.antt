-- ===== src/Routes/Served.antt =====
-- What every route keeps, when the queries and the steps of the review keep it.
use screenspace.Base.{◌≡◌, false, ℕ, refl, List, [], ◌∷◌}
use screenspace.Config.{Config}
use screenspace.Db.Models.{Database}
use screenspace.Server.Env.{Env}
use screenspace.Server.World.{World}
use screenspace.Server.Exec.Keeps.{IsPreorder, Keeps}
use screenspace.Server.Request.{Request, Handler}
use screenspace.Handler.Keeps.Writes.{UserSteps, Steps}
use screenspace.Handler.Keeps.User.{
  health-Keeps, list_categories-Keeps, get_wallpaper-Keeps, list-Keeps, create-Keeps,
  finalize_wallpaper-Keeps, download-Keeps, register-Keeps, login-Keeps, me-Keeps,
  toggle_favorite-Keeps, list_favorites-Keeps, create_report-Keeps,
}
use screenspace.Handler.Keeps.Admin.{
  queue-Keeps, list_wallpapers-Keeps, users-Keeps, reports-Keeps, approve_wallpaper-Keeps,
  reject_wallpaper-Keeps, edit_wallpaper-Keeps, ban_user-Keeps, unban_user-Keeps,
  promote_user-Keeps, dismiss-Keeps,
}
use screenspace.Routes.Checked.{
  per_ip-Keeps, per_user-Keeps, admin-Keeps, limited-Keeps, banned_check-Keeps, auth-Keeps,
}
use screenspace.Routes.{
  needs_admin, Route, get_health, get_categories, get_wallpapers, get_popular, get_recent, get_one,
  post_register, post_login, get_me, get_favorites, post_wallpapers, post_finalize, post_download,
  post_favorite, post_report, get_queue, post_approve, post_reject, get_all, patch_wallpaper,
  get_users, post_ban, post_unban, post_promote, get_reports, post_dismiss, public_limiter,
  auth_limiter, user_limiter, upload_limiter, download_limiter, public_route, auth_route,
  user_route, admin_route, serve, serve_all,
}

module _ (env : Env) (cfg : Config) (t : ℕ) {R : Database → Database → Type 0}
    (order : IsPreorder R) where
  module _ (h : Handler) (k : (r : Request) → Keeps R (h r)) (r : Request) where
    public_route-Keeps : Keeps R (public_route env cfg t h r)
    unfolding public_route
    public_route-Keeps = per_ip-Keeps order env h k public_limiter (λ rl w. refl) r

    auth_route-Keeps : Keeps R (auth_route env cfg t h r)
    unfolding auth_route
    auth_route-Keeps = per_ip-Keeps order env h k auth_limiter (λ rl w. refl) r

    user_route-Keeps : Keeps R (user_route env cfg t h r)
    unfolding user_route
    user_route-Keeps =
        auth-Keeps order env _
          (banned_check-Keeps order env _
            (per_user-Keeps order env h k user_limiter (λ rl w. refl)))
          cfg r

    admin_route-Keeps : Keeps R (admin_route env cfg t h r)
    unfolding admin_route
    admin_route-Keeps =
        auth-Keeps order env _ (banned_check-Keeps order env _ (admin-Keeps order env h k)) cfg r

  -- The routes for visitors and users.
  pub user_serve-Keeps :
      UserSteps env cfg R
      → (route : Route) → needs_admin route ≡ false
      → (r : Request) → Keeps R (serve env cfg t route r)
  unfolding serve
  user_serve-Keeps s get_health no_admin =
      public_route-Keeps _ λ r. health-Keeps env cfg order s r t
  user_serve-Keeps s get_categories no_admin =
      public_route-Keeps _ λ r. list_categories-Keeps env cfg order s r t
  user_serve-Keeps s get_wallpapers no_admin =
      public_route-Keeps _ λ r. list-Keeps env cfg order s r t _
  user_serve-Keeps s get_popular no_admin =
      public_route-Keeps _ λ r. list-Keeps env cfg order s r t _
  user_serve-Keeps s get_recent no_admin =
      public_route-Keeps _ λ r. list-Keeps env cfg order s r t _
  user_serve-Keeps s get_one no_admin =
      public_route-Keeps _ λ r. get_wallpaper-Keeps env cfg order s r t
  user_serve-Keeps s post_register no_admin =
      auth_route-Keeps _ λ r. register-Keeps env cfg order s r
  user_serve-Keeps s post_login no_admin = auth_route-Keeps _ λ r. login-Keeps env cfg order s r
  user_serve-Keeps s get_me no_admin = user_route-Keeps _ λ r. me-Keeps env cfg order s r
  user_serve-Keeps s get_favorites no_admin =
      user_route-Keeps _ λ r. list_favorites-Keeps env cfg order s r
  user_serve-Keeps s post_wallpapers no_admin = user_route-Keeps _ (
      limited-Keeps order env _ (λ r. create-Keeps env cfg order s r t) upload_limiter
        (λ rl w. refl) _)
  user_serve-Keeps s post_finalize no_admin =
      user_route-Keeps _ λ r. finalize_wallpaper-Keeps env cfg order s r t
  user_serve-Keeps s post_download no_admin = user_route-Keeps _ (
      limited-Keeps order env _ (λ r. download-Keeps env cfg order s r t) download_limiter
        (λ rl w. refl) _)
  user_serve-Keeps s post_favorite no_admin =
      user_route-Keeps _ λ r. toggle_favorite-Keeps env cfg order s r
  user_serve-Keeps s post_report no_admin =
      user_route-Keeps _ λ r. create_report-Keeps env cfg order s r
  user_serve-Keeps s get_queue no_admin = absurd (cc)
  user_serve-Keeps s post_approve no_admin = absurd (cc)
  user_serve-Keeps s post_reject no_admin = absurd (cc)
  user_serve-Keeps s get_all no_admin = absurd (cc)
  user_serve-Keeps s patch_wallpaper no_admin = absurd (cc)
  user_serve-Keeps s get_users no_admin = absurd (cc)
  user_serve-Keeps s post_ban no_admin = absurd (cc)
  user_serve-Keeps s post_unban no_admin = absurd (cc)
  user_serve-Keeps s post_promote no_admin = absurd (cc)
  user_serve-Keeps s get_reports no_admin = absurd (cc)
  user_serve-Keeps s post_dismiss no_admin = absurd (cc)

  module _ (s : Steps env cfg R) where
    pub serve-Keeps : (route : Route) (r : Request) → Keeps R (serve env cfg t route r)
    unfolding serve
    serve-Keeps get_health = user_serve-Keeps s.user get_health refl
    serve-Keeps get_categories = user_serve-Keeps s.user get_categories refl
    serve-Keeps get_wallpapers = user_serve-Keeps s.user get_wallpapers refl
    serve-Keeps get_popular = user_serve-Keeps s.user get_popular refl
    serve-Keeps get_recent = user_serve-Keeps s.user get_recent refl
    serve-Keeps get_one = user_serve-Keeps s.user get_one refl
    serve-Keeps post_register = user_serve-Keeps s.user post_register refl
    serve-Keeps post_login = user_serve-Keeps s.user post_login refl
    serve-Keeps get_me = user_serve-Keeps s.user get_me refl
    serve-Keeps get_favorites = user_serve-Keeps s.user get_favorites refl
    serve-Keeps post_wallpapers = user_serve-Keeps s.user post_wallpapers refl
    serve-Keeps post_finalize = user_serve-Keeps s.user post_finalize refl
    serve-Keeps post_download = user_serve-Keeps s.user post_download refl
    serve-Keeps post_favorite = user_serve-Keeps s.user post_favorite refl
    serve-Keeps post_report = user_serve-Keeps s.user post_report refl
    serve-Keeps get_queue = admin_route-Keeps _ λ r. queue-Keeps env cfg order s.admin r
    serve-Keeps post_approve =
        admin_route-Keeps _ λ r. approve_wallpaper-Keeps env cfg order s.admin r
    serve-Keeps post_reject =
        admin_route-Keeps _ λ r. reject_wallpaper-Keeps env cfg order s.admin r
    serve-Keeps get_all = admin_route-Keeps _ λ r. list_wallpapers-Keeps env cfg order s.admin r
    serve-Keeps patch_wallpaper =
        admin_route-Keeps _ λ r. edit_wallpaper-Keeps env cfg order s.admin r
    serve-Keeps get_users = admin_route-Keeps _ λ r. users-Keeps env cfg order s.admin r
    serve-Keeps post_ban = admin_route-Keeps _ λ r. ban_user-Keeps env cfg order s.admin r
    serve-Keeps post_unban = admin_route-Keeps _ λ r. unban_user-Keeps env cfg order s.admin r
    serve-Keeps post_promote = admin_route-Keeps _ λ r. promote_user-Keeps env cfg order s.admin r
    serve-Keeps get_reports = admin_route-Keeps _ λ r. reports-Keeps env cfg order s.admin r
    serve-Keeps post_dismiss = admin_route-Keeps _ λ r. dismiss-Keeps env cfg order s.admin r

    -- A sequence of requests keeps what each of them keeps.
    pub serve_all-R :
        (requests : List (Route × Request)) (w : World) → R w.db (serve_all env cfg t requests w).db
    unfolding serve_all
    serve_all-R [] w = order.same w.db
    serve_all-R ((route, r) ∷ rest) w =
        order.then_also _ _ _ ((serve-Keeps route r).at w) (serve_all-R rest _)
