-- ===== src/Routes/Accounts.antt =====
-- The accounts under any sequence of requests.
use screenspace.Base.{
  any-append, any-map_if, ℕ, String, ◌≡◌, refl, false, ◌||◌, List, [], ◌∷◌, ◌++◌, any, map_if,
  arith, eq_iff, Bool-cases, inl, inr,
}
use screenspace.Config.{Config}
use screenspace.Db.Models.{User, Database}
use screenspace.Db.Users.{user_id_is, user_email_is, create_user, set_banned, set_role, new_user}
use screenspace.Db.Wallpapers.{
  update_wallpaper, update_wallpaper_storage_key, update_wallpaper_metadata,
  update_wallpaper_status, update_wallpaper_status_with_reason,
}
use screenspace.Db.Favorites.{delete_favorite}
use screenspace.Db.Reports.{dismiss_report}
use screenspace.Server.Env.{Env}
use screenspace.Server.World.{World}
use screenspace.Server.Exec.Keeps.{IsPreorder}
use screenspace.Server.Request.{Request}
use screenspace.Handler.Keeps.Writes.{Steps}
use screenspace.Service.Wallpaper.Keeps.{approve-Keeps, reject-Keeps, finalize-Keeps}
use screenspace.Routes.{Route, serve_all}
use screenspace.Routes.Untouched.{
  users-create_wallpaper, users-increment_download_count, users-update_wallpaper_after_finalize,
  users-insert_favorite, users-create_report,
}
use screenspace.Routes.Served.{serve_all-R}

-- No two accounts have the same email.
abbrev pub IsUnique : List User → Type 0
IsUnique [] = Unit
IsUnique (u ∷ us) = (any (user_email_is u.email) us ≡ false) × IsUnique us

append-IsUnique :
    (us : List User) (v : User)
    → IsUnique us
    → any (user_email_is v.email) us ≡ false
    → IsUnique (us ++ v ∷ [])
append-IsUnique [] v h new = (refl, tt)
append-IsUnique (u ∷ us) v h new = (
  rw (any-append (user_email_is u.email) us (v ∷ []))
      (ground (arith, h.0, eq_iff u.email v.email, eq_iff v.email u.email)),
  append-IsUnique us v h.1 (ground arith),
)

module _ (id : ℕ) (f : User → User) (same : (u : User) → (f u).email ≡ u.email) where
  unseen : (email : String) (v : User) → user_email_is email (f v) ≡ user_email_is email v
  unseen email v = rw (same v) refl

  map_if-IsUnique : (us : List User) → IsUnique us → IsUnique (map_if (user_id_is id) f us)
  map_if-IsUnique [] h = tt
  map_if-IsUnique (u ∷ us) h = elim (Bool-cases (user_id_is id u)) [
    | inl is ↦
        rw
          (
            is,
            same u,
            any-map_if (user_email_is u.email) (user_id_is id) f (λ v. unseen u.email v) us,
          )
          (h.0, map_if-IsUnique us h.1)
    | inr is_not ↦
        rw (is_not, any-map_if (user_email_is u.email) (user_id_is id) f (λ v. unseen u.email v) us)
          (h.0, map_if-IsUnique us h.1)
  ]

-- Unique emails stay unique.
abbrev pub StaysUnique : Database → Database → Type 0
StaysUnique d d' = IsUnique d.users → IsUnique d'.users

StaysUnique-order : IsPreorder StaysUnique
StaysUnique-order = record { same = λ d h. h; then_also = λ a b c p q h. q (p h) }

create_user-StaysUnique :
    (id now : ℕ) (email hash role : String) (d : Database)
    → StaysUnique d (create_user id now email hash role d).1
unfolding create_user
create_user-StaysUnique id now email hash role d h =
    elim (Bool-cases (any (user_id_is id) d.users || any (user_email_is email) d.users)) [
      | inl taken ↦ rw taken h
      | inr free ↦
          rw free (append-IsUnique d.users (new_user id now email hash role) h (ground arith))
    ]

module _ (env : Env) (cfg : Config) where
  unique_steps : Steps env cfg StaysUnique
  unfolding update_wallpaper_storage_key update_wallpaper_metadata update_wallpaper
      update_wallpaper_status update_wallpaper_status_with_reason set_banned set_role
      delete_favorite dismiss_report
  unique_steps = record {
    user = record {
      created = λ id now title uploader key category d h.
          rw (users-create_wallpaper id now title uploader key category d) h;
      keyed = λ now key id d h. h;
      counted = λ id d h. rw (users-increment_download_count id d) h;
      registered = create_user-StaysUnique;
      favorited = λ now u p d h. rw (users-insert_favorite now u p d) h;
      unfavorited = λ u p d h. h;
      reported = λ id now p u reason d h. rw (users-create_report id now p u reason d) h;
      finalized =
          finalize-Keeps env cfg StaysUnique-order
            (λ now p id d review h. rw (users-update_wallpaper_after_finalize now p id d) h);
    };
    admin = record {
      edited = λ now title category tags id d h. h;
      banned = λ b id d h. map_if-IsUnique id _ (λ u. refl) d.users h;
      promoted = λ role id d h. map_if-IsUnique id _ (λ u. refl) d.users h;
      dismissed = λ id d h. h;
      approved = approve-Keeps env cfg StaysUnique-order (λ now status id d h. h);
      rejected = reject-Keeps env cfg StaysUnique-order (λ now status reason id d h. h);
    };
  }

-- Where no two accounts have the same email, none have it after any requests that the server
-- answers, one after the other.
pub serve_all-IsUnique :
    (env : Env) (cfg : Config) (start_time : ℕ) (requests : List (Route × Request)) (w : World)
    → IsUnique w.db.users
    → IsUnique (serve_all env cfg start_time requests w).db.users
serve_all-IsUnique env cfg t requests w h =
    serve_all-R env cfg t StaysUnique-order (unique_steps env cfg) requests w h
