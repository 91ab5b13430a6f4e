-- ===== src/Routes.antt =====
-- server/main.go: the routes, each with its middleware in the order in which chi runs it. The
-- middleware of chi itself and security.go change no state of the server; a panic of a handler
-- ends its request (`Recoverer`), and is a result here.
pub mod Untouched
pub mod Checked
pub mod Served
pub mod Lifecycle
pub mod Accounts
pub mod Referred
pub mod References
pub mod Favorites
pub mod Steps
pub mod Privileges
use screenspace.Base.{
  ℕ, String, Bool, true, false, Option, none, some, List, [], ◌∷◌, if◌then◌else◌,
}
use screenspace.Apperr.{Error}
use screenspace.Config.{Config}
use screenspace.Server.Env.{Env}
use screenspace.Server.World.{World, Limiters}
use screenspace.Server.Exec.{Exec, Result, pure, throw, ◌>>=◌}
use screenspace.Server.Json.{Response}
use screenspace.Server.Request.{Request, Handler}
use screenspace.Service.Auth.{TokenClaims}
use screenspace.Middleware.RateLimit.{RateLimiter}
use screenspace.Middleware.Checks.{Limiter, admit, per_ip, per_user, banned_check, auth, admin}
use screenspace.Handler.Adapter.{wrap}
use screenspace.Handler.Rows.{WallpaperHandler}
use screenspace.Handler.Wallpaper.{
  health, list_categories, list_all, popular, recent, get_wallpaper, create, finalize_wallpaper,
  download,
}
use screenspace.Handler.Auth.{register, login, me}
use screenspace.Handler.Social.{toggle_favorite, list_favorites, create_report}
use screenspace.Handler.Admin.{
  queue, approve_wallpaper, reject_wallpaper, list_wallpapers, edit_wallpaper, users, ban_user,
  unban_user, promote_user, reports, dismiss,
}

-- The five limiters, as the state holds them.
abbrev pub public_limiter : Limiter
public_limiter = record {
  current = λ w. w.limiters.public_limiter;
  update = λ rl w. record w { limiters = record w.limiters { public_limiter = rl } };
}

abbrev pub auth_limiter : Limiter
auth_limiter = record {
  current = λ w. w.limiters.auth_limiter;
  update = λ rl w. record w { limiters = record w.limiters { auth_limiter = rl } };
}

abbrev pub user_limiter : Limiter
user_limiter = record {
  current = λ w. w.limiters.user_limiter;
  update = λ rl w. record w { limiters = record w.limiters { user_limiter = rl } };
}

abbrev pub upload_limiter : Limiter
upload_limiter = record {
  current = λ w. w.limiters.upload_limiter;
  update = λ rl w. record w { limiters = record w.limiters { upload_limiter = rl } };
}

abbrev pub download_limiter : Limiter
download_limiter = record {
  current = λ w. w.limiters.download_limiter;
  update = λ rl w. record w { limiters = record w.limiters { download_limiter = rl } };
}

pub data Route : Type 0 where
  get_health get_categories get_wallpapers get_popular get_recent get_one : Route
  post_register post_login : Route
  get_me get_favorites post_wallpapers post_finalize post_download post_favorite post_report : Route
  get_queue post_approve post_reject get_all patch_wallpaper get_users : Route
  post_ban post_unban post_promote get_reports post_dismiss : Route

-- The routes of the last group, behind `Admin`.
abbrev pub needs_admin : Route → Bool
needs_admin get_queue = true
needs_admin post_approve = true
needs_admin post_reject = true
needs_admin get_all = true
needs_admin patch_wallpaper = true
needs_admin get_users = true
needs_admin post_ban = true
needs_admin post_unban = true
needs_admin post_promote = true
needs_admin get_reports = true
needs_admin post_dismiss = true
needs_admin _ = false

-- Too many uploads, or downloads, of one user.
abbrev pub limit_reached : String → Error
limit_reached message = record {
  status = 429;
  code = "rate_limited";
  message = message;
  cause = none;
}

module _ (env : Env) where
  abbrev pub within : Limiter → String → Handler → Option TokenClaims → Handler
  within l message next none r = next r
  within l message next (some c) r = do
    allowed ← admit env l c.user_id
    if allowed then next r else throw (limit_reached message)

  -- `claims != nil && !limiter.Allow(claims.UserID)`
  unfoldable pub limited : Limiter → String → Handler → Handler
  limited l message next r = within l message next r.claims r

module _ (env : Env) (cfg : Config) (start_time : ℕ) where
  -- The groups of routes.
  unfoldable pub public_route : Handler → Handler
  public_route h = per_ip env public_limiter (wrap h)

  unfoldable pub auth_route : Handler → Handler
  auth_route h = per_ip env auth_limiter (wrap h)

  unfoldable pub user_route : Handler → Handler
  user_route h = auth env cfg (banned_check env (per_user env user_limiter (wrap h)))

  unfoldable pub admin_route : Handler → Handler
  admin_route h = auth env cfg (banned_check env (admin (wrap h)))

  abbrev pub wallpapers : WallpaperHandler
  wallpapers = record { cfg = cfg; start_time = start_time }

  -- The handler of a route.
  unfoldable pub serve : Route → Handler
  serve get_health = public_route (health env wallpapers)
  serve get_categories = public_route list_categories
  serve get_wallpapers = public_route (list_all env wallpapers)
  serve get_popular = public_route (popular env wallpapers)
  serve get_recent = public_route (recent env wallpapers)
  serve get_one = public_route (get_wallpaper env wallpapers)
  serve post_register = auth_route (register env cfg)
  serve post_login = auth_route (login env cfg)
  serve get_me = user_route (me env)
  serve get_favorites = user_route (list_favorites env cfg)
  serve post_wallpapers =
      user_route (limited env upload_limiter "upload limit reached" (create env wallpapers))
  serve post_finalize = user_route (finalize_wallpaper env wallpapers)
  serve post_download =
      user_route (limited env download_limiter "download limit reached" (download env wallpapers))
  serve post_favorite = user_route (toggle_favorite env)
  serve post_report = user_route (create_report env cfg)
  serve get_queue = admin_route (queue env cfg)
  serve post_approve = admin_route (approve_wallpaper env)
  serve post_reject = admin_route (reject_wallpaper env)
  serve get_all = admin_route (list_wallpapers env cfg)
  serve patch_wallpaper = admin_route (edit_wallpaper env)
  serve get_users = admin_route (users env cfg)
  serve post_ban = admin_route (ban_user env)
  serve post_unban = admin_route (unban_user env)
  serve post_promote = admin_route (promote_user env)
  serve get_reports = admin_route (reports env cfg)
  serve post_dismiss = admin_route (dismiss env)

  -- The state after a sequence of requests, one after the other.
  unfoldable pub serve_all : List (Route × Request) → World → World
  serve_all [] w = w
  serve_all ((route, r) ∷ rest) w = serve_all rest (serve route r w).1
