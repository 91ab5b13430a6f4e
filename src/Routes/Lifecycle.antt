-- ===== src/Routes/Lifecycle.antt =====
-- The life of the wallpapers under any sequence of requests.
use screenspace.Base.{
  ℕ, String, ◌≡◌, refl, sym, ◌∙◌, Option, some, List, inl, inr, ◌⊎◌, Bool-cases, any, ◌&&◌, leb,
}
use screenspace.Types.{status_pending, status_pending_review, status_approved, status_rejected}
use screenspace.Config.{Config}
use screenspace.Db.Models.{Wallpaper, Database}
use screenspace.Db.Users.{create_user, set_banned, set_role}
use screenspace.Db.Wallpapers.{
  wallpaper_id_is, max_bigint, find_wallpaper, update_wallpaper, create_wallpaper,
  update_wallpaper_storage_key, update_wallpaper_metadata, increment_download_count,
}
use screenspace.Db.Wallpapers.Laws.{find-create_wallpaper}
use screenspace.Db.Favorites.{insert_favorite, delete_favorite}
use screenspace.Db.Reports.{create_report, dismiss_report}
use screenspace.Server.Env.{Env}
use screenspace.Server.World.{World}
use screenspace.Server.Exec.Keeps.{IsPreorder}
use screenspace.Server.Request.{Request}
use screenspace.Service.Wallpaper.{approve, reject, finalize}
use screenspace.Service.Wallpaper.Lifecycle.{
  Moves, stays, submitted, accepted, declined, Evolves, update-Evolves, approve-Evolves,
  reject-Evolves, finalize-Evolves,
}
use screenspace.Handler.Keeps.Writes.{Steps}
use screenspace.Routes.{Route, serve_all}
use screenspace.Routes.Untouched.{
  wallpapers-create_user, wallpapers-insert_favorite, wallpapers-create_report,
}
use screenspace.Routes.Served.{serve_all-R}

-- A status `t` that steps of the life of a wallpaper reach from another.
pub data Reaches (t : String) : String → Type 0 where
  here : (s : String) → s ≡ t → Reaches t s
  moved : (s m : String) → Moves s m → Reaches t m → Reaches t s

Reaches-trans : (t u s : String) → Reaches t s → Reaches u t → Reaches u s
Reaches-trans t u s (here _ e) k = moved s t (stays e) k
Reaches-trans t u s (moved _ m step rest) k = moved s m step (Reaches-trans t u m rest k)

-- Every wallpaper is still there, with its uploader, and its status came about by such steps.
abbrev pub Develops : Database → Database → Type 0
Develops d d' =
    (id : ℕ) (w : Wallpaper)
    → find_wallpaper id d ≡ some w
    → (w' : Wallpaper) × (find_wallpaper id d' ≡ some w')
      × (w'.uploader_id ≡ w.uploader_id)
      × Reaches w'.status w.status

Develops-of : (d d' : Database) → Evolves d d' → Develops d d'
Develops-of d d' k id w h =
    let (w', found, owner, step) = k id w h in
    (w', found, owner, moved w.status w'.status step (here w'.status refl))

-- Tables with the same wallpapers.
Develops-same : (d d' : Database) → d'.wallpapers ≡ d.wallpapers → Develops d d'
Develops-same d d' same id w h = (w, rw same h, refl, here w.status refl)

Develops-order : IsPreorder Develops
Develops-order = record {
  same = λ d. Develops-same d d refl;
  then_also = λ a b c p q id w h.
      let (v, found, owner, reach) = p id w h in
      let (u, found', owner', reach') = q id v found in
      (u, found', owner' ∙ owner, Reaches-trans v.status u.status w.status reach reach');
}

-- An UPDATE that changes neither the id, the uploader nor the status.
update-Develops :
    (d : Database) (id : ℕ) (f : Wallpaper → Wallpaper)
    → ((w : Wallpaper) → (f w).id ≡ w.id)
    → ((w : Wallpaper) → (f w).uploader_id ≡ w.uploader_id)
    → ((w : Wallpaper) → (f w).status ≡ w.status)
    → Develops d (update_wallpaper id f d)
update-Develops d id f same_id same_owner same_status =
    Develops-of d (update_wallpaper id f d)
      (update-Evolves d id f same_id same_owner λ w h. stays (sym (same_status w)))

create_wallpaper-Develops :
    (id now : ℕ) (title : String) (uploader : ℕ) (key : String) (category : Option String)
    (d : Database)
    → Develops d (create_wallpaper id now title uploader key category d).1
create_wallpaper-Develops id now title uploader key category d j w h =
    (w, find-create_wallpaper j id now title uploader key category d w h, refl, here w.status refl)

increment-Develops : (id : ℕ) (d : Database) → Develops d (increment_download_count id d).1
unfolding increment_download_count
increment-Develops id d =
    elim (Bool-cases
      (any (λ w. wallpaper_id_is id w && leb max_bigint w.download_count) d.wallpapers)) [
        | inl full ↦ rw full (Develops-same d d refl)
        | inr room ↦ rw room (update-Develops d id _ (λ w. refl) (λ w. refl) (λ w. refl))
      ]

Develops-steps : (env : Env) (cfg : Config) → Steps env cfg Develops
unfolding update_wallpaper_storage_key update_wallpaper_metadata set_banned set_role delete_favorite
    dismiss_report
Develops-steps env cfg = record {
  user = record {
    created = create_wallpaper-Develops;
    keyed = λ now key id d. update-Develops d id _ (λ w. refl) (λ w. refl) (λ w. refl);
    counted = increment-Develops;
    registered = λ id now email hash role d.
        Develops-same d (create_user id now email hash role d).1
          (wallpapers-create_user id now email hash role d);
    favorited = λ now u p d.
        Develops-same d (insert_favorite now u p d).1 (wallpapers-insert_favorite now u p d);
    unfavorited = λ u p d. Develops-same d (delete_favorite u p d).1 refl;
    reported = λ id now p u reason d.
        Develops-same d (create_report id now p u reason d).1
          (wallpapers-create_report id now p u reason d);
    finalized = λ id user_id. record {
      at = λ w.
          Develops-of w.db (finalize env cfg id user_id w).1.db
            (finalize-Evolves env cfg id user_id w);
    };
  };
  admin = record {
    edited =
        λ now title category tags id d. update-Develops d id _ (λ w. refl) (λ w. refl) (λ w. refl);
    banned = λ b id d. Develops-same d (set_banned b id d).1 refl;
    promoted = λ role id d. Develops-same d (set_role role id d).1 refl;
    dismissed = λ id d. Develops-same d (dismiss_report id d).1 refl;
    approved = λ id. record {
      at = λ w. Develops-of w.db (approve env id w).1.db (approve-Evolves env id w);
    };
    rejected = λ id reason. record {
      at = λ w. Develops-of w.db (reject env id reason w).1.db (reject-Evolves env id reason w);
    };
  };
}

-- Whatever requests the server answers, one after the other, every wallpaper is still there
-- afterwards, with its uploader, and its status came about only by steps from pending to
-- pending_review, and from there to approved or to rejected.
pub serve_all-Develops :
    (env : Env) (cfg : Config) (start_time : ℕ) (requests : List (Route × Request)) (w : World)
    → Develops w.db (serve_all env cfg start_time requests w).db
serve_all-Develops env cfg t requests w =
    serve_all-R env cfg t Develops-order (Develops-steps env cfg) requests w

-- A status that no step leaves.
abbrev pub IsFinal : String → Type 0
IsFinal s = (s ≡ status_approved) ⊎ (s ≡ status_rejected)

not_final : (s : String) → IsFinal s → (s ≡ status_pending) ⊎ (s ≡ status_pending_review) → ⊥
not_final s (inl a) (inl b) = absurd (cc)
not_final s (inl a) (inr b) = absurd (cc)
not_final s (inr a) (inl b) = absurd (cc)
not_final s (inr a) (inr b) = absurd (cc)

final-Moves : (s t : String) → IsFinal s → Moves s t → s ≡ t
final-Moves s t f (stays e) = e
final-Moves s t f (submitted a b) = absurd (not_final s f (inl a))
final-Moves s t f (accepted a b) = absurd (not_final s f (inr a))
final-Moves s t f (declined a b) = absurd (not_final s f (inr a))

final-Reaches : (t s : String) → IsFinal s → Reaches t s → s ≡ t
final-Reaches t s f (here _ e) = e
final-Reaches t s f (moved _ m step rest) =
    let same = final-Moves s m f step in same ∙ final-Reaches t m (rw same at f) rest

-- A wallpaper that is approved or rejected keeps that status, whatever requests the server answers
-- afterwards, one after the other.
pub serve_all-IsFinal :
    (env : Env) (cfg : Config) (start_time : ℕ) (requests : List (Route × Request)) (w : World)
    → (id : ℕ) (v : Wallpaper) → find_wallpaper id w.db ≡ some v
    → IsFinal v.status
    → (v' : Wallpaper) × (find_wallpaper id (serve_all env cfg start_time requests w).db ≡ some v')
      × (v'.status ≡ v.status)
serve_all-IsFinal env cfg t requests w id v found f =
    let (v', found', owner, reach) = serve_all-Develops env cfg t requests w id v found in
    (v', found', sym (final-Reaches v'.status v.status f reach))
