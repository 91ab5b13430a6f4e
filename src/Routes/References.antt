-- ===== src/Routes/References.antt =====
-- The references between the tables under any sequence of requests.
use screenspace.Base.{ℕ, refl, List}
use screenspace.Config.{Config}
use screenspace.Db.Users.{set_banned, set_role}
use screenspace.Db.Wallpapers.{
  update_wallpaper_storage_key, update_wallpaper_metadata, update_wallpaper_status,
  update_wallpaper_status_with_reason,
}
use screenspace.Server.Env.{Env}
use screenspace.Server.World.{World}
use screenspace.Server.Request.{Request}
use screenspace.Service.Wallpaper.Keeps.{approve-Keeps, reject-Keeps, finalize-Keeps}
use screenspace.Handler.Keeps.Writes.{Steps}
use screenspace.Routes.{Route, serve_all}
use screenspace.Routes.Served.{serve_all-R}
use screenspace.Routes.Referred.{IsReferred, StaysReferred, StaysReferred-order}
use screenspace.Routes.Referred.Queries.{
  update-StaysReferred, users-StaysReferred, create_user-StaysReferred,
  create_wallpaper-StaysReferred, create_report-StaysReferred, dismiss_report-StaysReferred,
  increment-StaysReferred, finalize-StaysReferred, insert_favorite-StaysReferred,
  delete_favorite-StaysReferred,
}

referred_steps : (env : Env) (cfg : Config) → Steps env cfg StaysReferred
unfolding update_wallpaper_storage_key update_wallpaper_metadata update_wallpaper_status
    update_wallpaper_status_with_reason set_banned set_role
referred_steps env cfg = record {
  user = record {
    created = create_wallpaper-StaysReferred;
    keyed = λ now key id d. update-StaysReferred d id _ (λ w. refl) (λ w. refl);
    counted = increment-StaysReferred;
    registered = create_user-StaysReferred;
    favorited = insert_favorite-StaysReferred;
    unfavorited = delete_favorite-StaysReferred;
    reported = create_report-StaysReferred;
    finalized =
        finalize-Keeps env cfg StaysReferred-order
          λ now p id d review. finalize-StaysReferred now p id d;
  };
  admin = record {
    edited = λ now title category tags id d. update-StaysReferred d id _ (λ w. refl) (λ w. refl);
    banned = λ b id d. users-StaysReferred d id _ (λ u. refl);
    promoted = λ role id d. users-StaysReferred d id _ (λ u. refl);
    dismissed = dismiss_report-StaysReferred;
    approved =
        approve-Keeps env cfg StaysReferred-order
          (λ now status id d. update-StaysReferred d id _ (λ w. refl) (λ w. refl));
    rejected =
        reject-Keeps env cfg StaysReferred-order
          (λ now status reason id d. update-StaysReferred d id _ (λ w. refl) (λ w. refl));
  };
}

-- Where every favorite and every report refers to a user and a wallpaper that are there, and every
-- wallpaper has an uploader that is there, it is so after any requests that the server answers, one
-- after the other.
pub serve_all-IsReferred :
    (env : Env) (cfg : Config) (start_time : ℕ) (requests : List (Route × Request)) (w : World)
    → IsReferred w.db
    → IsReferred (serve_all env cfg start_time requests w).db
serve_all-IsReferred env cfg t requests w h =
    let k = serve_all-R env cfg t StaysReferred-order (referred_steps env cfg) requests w in
    record {
      favorites = k.favorites h.favorites;
      reports = k.reports h.reports;
      owners = k.owners h.owners;
    }
