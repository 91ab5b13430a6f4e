-- ===== src/Handler/Keeps/User.antt =====
-- What the handlers of visitors and users keep.
use screenspace.Handler.Keeps.Writes.{
  UserSteps, created-Keeps, keyed-Keeps, counted-Keeps, registered-Keeps, favorited-Keeps,
  unfavorited-Keeps, reported-Keeps,
}
use screenspace.Handler.Keeps.Rules.{
  user_of-Keeps, or_internal-Keeps, each-Keeps, url_fields-Keeps, row_to_map-Keeps,
}
use screenspace.Base.{ℕ, String, ℤ}
use screenspace.Config.{Config}
use screenspace.Db.Models.{
  User, Database, Reply, done, failed, no_rows, unique_violation, foreign_key_violation,
  out_of_range, unavailable,
}
use screenspace.Server.Env.{Env}
use screenspace.Server.Exec.Keeps.{IsPreorder, Keeps, keeps_rules}
use screenspace.Server.Request.{Request, Form}
use screenspace.Service.Auth.{hash_password, generate_token}
use screenspace.Service.Wallpaper.{get_approved}
use screenspace.Service.Favorite as FavoriteService
use screenspace.Service.Report as ReportService
use screenspace.Handler.Rows.{WallpaperHandler, wallpaper_row_to_response}
use screenspace.Handler.Wallpaper as WallpaperHandlers
use screenspace.Handler.Auth as AuthHandlers
use screenspace.Handler.Social as SocialHandlers

module _ (env : Env) (cfg : Config) {R : Database → Database → Type 0} (order : IsPreorder R)
    (s : UserSteps env cfg R) where
  get_approved-Keeps : (id : ℕ) → Keeps R (get_approved env id)
  unfolding get_approved
  get_approved-Keeps id = search (keeps_rules, order) depth 12

  respond_token-Keeps :
      (status : ℕ) (u : User) → Keeps R (AuthHandlers.respond_token env cfg status u)
  unfolding AuthHandlers.respond_token generate_token
  respond_token-Keeps status u = search (keeps_rules, order) depth 14

  created_or_throw-Keeps : (reply : Reply User) → Keeps R (AuthHandlers.created_or_throw reply)
  created_or_throw-Keeps (done u) = search (keeps_rules, order)
  created_or_throw-Keeps (failed no_rows) = search (keeps_rules, order)
  created_or_throw-Keeps (failed unique_violation) = search (keeps_rules, order)
  created_or_throw-Keeps (failed foreign_key_violation) = search (keeps_rules, order)
  created_or_throw-Keeps (failed out_of_range) = search (keeps_rules, order)
  created_or_throw-Keeps (failed unavailable) = search (keeps_rules, order)

  toggle-Keeps : (u p : ℕ) → Keeps R (FavoriteService.toggle env u p)
  unfolding FavoriteService.toggle FavoriteService.add_favorite FavoriteService.remove_favorite
  toggle-Keeps u p =
      search
        (keeps_rules, order, favorited-Keeps env cfg order s, unfavorited-Keeps env cfg order s)
        depth 16

  list_by_user-Keeps : (u : ℕ) (lim off : ℤ) → Keeps R (FavoriteService.list_by_user env u lim off)
  unfolding FavoriteService.list_by_user
  list_by_user-Keeps u lim off = search (keeps_rules, order) depth 16

  report-Keeps : (p u : ℕ) (reason : String) → Keeps R (ReportService.create env cfg p u reason)
  unfolding ReportService.create
  report-Keeps p u reason = search (keeps_rules, order, reported-Keeps env cfg order s) depth 16

  create_account-Keeps :
      (email password : String) → Keeps R (AuthHandlers.create_account env cfg email password)
  unfolding AuthHandlers.create_account hash_password
  create_account-Keeps email password =
      search (keeps_rules, order, registered-Keeps env cfg order s, created_or_throw-Keeps) depth 16

  module _ (r : Request) (start_time : ℕ) where
    abbrev h : WallpaperHandler
    h = record { cfg = cfg; start_time = start_time }

    pub health-Keeps : Keeps R (WallpaperHandlers.health env h r)
    unfolding WallpaperHandlers.health
    health-Keeps = search (keeps_rules, order) depth 12

    pub list_categories-Keeps : Keeps R (WallpaperHandlers.list_categories r)
    unfolding WallpaperHandlers.list_categories
    list_categories-Keeps = search (keeps_rules, order) depth 12

    pub get_wallpaper-Keeps : Keeps R (WallpaperHandlers.get_wallpaper env h r)
    unfolding WallpaperHandlers.get_wallpaper wallpaper_row_to_response
    get_wallpaper-Keeps =
        search (keeps_rules, order, get_approved-Keeps, url_fields-Keeps env cfg order) depth 14

    pub list-Keeps : (sort : String) → Keeps R (WallpaperHandlers.list env h sort r)
    unfolding WallpaperHandlers.list
    list-Keeps sort =
        search (keeps_rules, order, each-Keeps env cfg order, row_to_map-Keeps env cfg order) depth
          16

    create_row-Keeps : (u : ℕ) (req : Form) → Keeps R (WallpaperHandlers.create_row env h u req)
    unfolding WallpaperHandlers.create_row
    create_row-Keeps u req =
        search (keeps_rules, order, created-Keeps env cfg order s, keyed-Keeps env cfg order s)
          depth 20

    pub create-Keeps : Keeps R (WallpaperHandlers.create env h r)
    unfolding WallpaperHandlers.create
    create-Keeps =
        search (keeps_rules, order, user_of-Keeps env cfg order, create_row-Keeps) depth 20

    pub finalize_wallpaper-Keeps : Keeps R (WallpaperHandlers.finalize_wallpaper env h r)
    unfolding WallpaperHandlers.finalize_wallpaper
    finalize_wallpaper-Keeps =
        search (keeps_rules, order, user_of-Keeps env cfg order, s.finalized) depth 16

    pub download-Keeps : Keeps R (WallpaperHandlers.download env h r)
    unfolding WallpaperHandlers.download
    download-Keeps =
        search (keeps_rules, order, get_approved-Keeps, counted-Keeps env cfg order s) depth 16

  module _ (r : Request) where
    pub register-Keeps : Keeps R (AuthHandlers.register env cfg r)
    unfolding AuthHandlers.register
    register-Keeps = search (keeps_rules, order, create_account-Keeps, respond_token-Keeps) depth 20

    pub login-Keeps : Keeps R (AuthHandlers.login env cfg r)
    unfolding AuthHandlers.login
    login-Keeps = search (keeps_rules, order, respond_token-Keeps) depth 20

    pub me-Keeps : Keeps R (AuthHandlers.me env r)
    unfolding AuthHandlers.me
    me-Keeps = search (keeps_rules, order, user_of-Keeps env cfg order) depth 16

    pub toggle_favorite-Keeps : Keeps R (SocialHandlers.toggle_favorite env r)
    unfolding SocialHandlers.toggle_favorite
    toggle_favorite-Keeps =
        search (keeps_rules, order, user_of-Keeps env cfg order, toggle-Keeps) depth 16

    pub list_favorites-Keeps : Keeps R (SocialHandlers.list_favorites env cfg r)
    unfolding SocialHandlers.list_favorites
    list_favorites-Keeps =
        search
          (
            keeps_rules,
            order,
            user_of-Keeps env cfg order,
            or_internal-Keeps env cfg order,
            list_by_user-Keeps,
          )
          depth 16

    pub create_report-Keeps : Keeps R (SocialHandlers.create_report env cfg r)
    unfolding SocialHandlers.create_report
    create_report-Keeps =
        search (keeps_rules, order, user_of-Keeps env cfg order, report-Keeps) depth 20
