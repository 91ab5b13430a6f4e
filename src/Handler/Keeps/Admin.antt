-- ===== src/Handler/Keeps/Admin.antt =====
-- What the handlers of admins keep.
use screenspace.Handler.Keeps.Writes.{
  AdminSteps, edited-Keeps, banned-Keeps, promoted-Keeps, dismissed-Keeps,
}
use screenspace.Handler.Keeps.Rules.{user_of-Keeps, each-Keeps, row_to_map-Keeps}
use screenspace.Base.{ℕ, String, Bool}
use screenspace.Config.{Config}
use screenspace.Db.Models.{Database}
use screenspace.Server.Env.{Env}
use screenspace.Server.Exec.Keeps.{IsPreorder, Keeps, keeps_rules}
use screenspace.Server.Request.{Request}
use screenspace.Handler.Admin as AdminHandlers

module _ (env : Env) (cfg : Config) {R : Database → Database → Type 0} (order : IsPreorder R)
    (s : AdminSteps env R) where
  module _ (r : Request) where
    list_by_status-Keeps :
        (status a b : String) → Keeps R (AdminHandlers.list_by_status env cfg status a b r)
    unfolding AdminHandlers.list_by_status
    list_by_status-Keeps status a b =
        search (keeps_rules, order, each-Keeps env cfg order, row_to_map-Keeps env cfg order) depth
          20

    pub queue-Keeps : Keeps R (AdminHandlers.queue env cfg r)
    unfolding AdminHandlers.queue
    queue-Keeps = list_by_status-Keeps _ _ _

    pub list_wallpapers-Keeps : Keeps R (AdminHandlers.list_wallpapers env cfg r)
    unfolding AdminHandlers.list_wallpapers
    list_wallpapers-Keeps = list_by_status-Keeps _ _ _

    pub users-Keeps : Keeps R (AdminHandlers.users env cfg r)
    unfolding AdminHandlers.users
    users-Keeps = search (keeps_rules, order) depth 20

    pub reports-Keeps : Keeps R (AdminHandlers.reports env cfg r)
    unfolding AdminHandlers.reports
    reports-Keeps = search (keeps_rules, order) depth 20

    pub approve_wallpaper-Keeps : Keeps R (AdminHandlers.approve_wallpaper env r)
    unfolding AdminHandlers.approve_wallpaper
    approve_wallpaper-Keeps =
        search (keeps_rules, order, user_of-Keeps env cfg order, s.approved) depth 16

    pub reject_wallpaper-Keeps : Keeps R (AdminHandlers.reject_wallpaper env r)
    unfolding AdminHandlers.reject_wallpaper
    reject_wallpaper-Keeps =
        search (keeps_rules, order, user_of-Keeps env cfg order, s.rejected) depth 16

    pub edit_wallpaper-Keeps : Keeps R (AdminHandlers.edit_wallpaper env r)
    unfolding AdminHandlers.edit_wallpaper
    edit_wallpaper-Keeps = search (keeps_rules, order, edited-Keeps env order s) depth 16

    change_banned-Keeps :
        (b : Bool) (a c : String) → Keeps R (AdminHandlers.change_banned env b a c r)
    unfolding AdminHandlers.change_banned
    change_banned-Keeps b a c =
        search (keeps_rules, order, user_of-Keeps env cfg order, banned-Keeps env order s) depth 20

    pub ban_user-Keeps : Keeps R (AdminHandlers.ban_user env r)
    unfolding AdminHandlers.ban_user
    ban_user-Keeps = change_banned-Keeps _ _ _

    pub unban_user-Keeps : Keeps R (AdminHandlers.unban_user env r)
    unfolding AdminHandlers.unban_user
    unban_user-Keeps = change_banned-Keeps _ _ _

    promote-Keeps : (id : ℕ) → Keeps R (AdminHandlers.promote env id r)
    unfolding AdminHandlers.promote
    promote-Keeps id =
        search (keeps_rules, order, user_of-Keeps env cfg order, promoted-Keeps env order s) depth
          16

    pub promote_user-Keeps : Keeps R (AdminHandlers.promote_user env r)
    unfolding AdminHandlers.promote_user
    promote_user-Keeps = search (keeps_rules, order, promote-Keeps) depth 20

    pub dismiss-Keeps : Keeps R (AdminHandlers.dismiss env r)
    unfolding AdminHandlers.dismiss
    dismiss-Keeps =
        search (keeps_rules, order, user_of-Keeps env cfg order, dismissed-Keeps env order s) depth
          16
