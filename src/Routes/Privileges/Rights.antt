-- ===== src/Routes/Privileges/Rights.antt =====
-- Which changes of the tables need no admin, and that each query of the other handlers makes only
-- such.
use screenspace.Base.{
  ℕ, String, ◌≡◌, refl, sym, ◌∙◌, Option, some, List, [], ◌∷◌, ◌++◌, any, find, arith, ◌==◌,
  Bool-cases, Option-cases, inl, inr, ◌⊎◌, leb, ◌&&◌, find-append, none,
}
use screenspace.Types.{status_pending, status_pending_review, status_approved, status_rejected}
use screenspace.Config.{Config}
use screenspace.Db.Models.{User, Wallpaper, Database}
use screenspace.Db.Users.{user_id_is, new_user, create_user}
use screenspace.Db.Wallpapers.{
  wallpaper_id_is, find_wallpaper, new_wallpaper, update_wallpaper, create_wallpaper,
  update_wallpaper_storage_key, update_wallpaper_after_finalize, increment_download_count,
  max_bigint, FinalizeParams,
}
use screenspace.Db.Wallpapers.Laws.{find-update_wallpaper, updated}
use screenspace.Db.Favorites.{insert_favorite, delete_favorite}
use screenspace.Db.Reports.{create_report}
use screenspace.Server.Env.{Env}
use screenspace.Server.Exec.Keeps.{IsPreorder}
use screenspace.Service.Wallpaper.Keeps.{finalize-Keeps}
use screenspace.Handler.Keeps.Writes.{UserSteps}
use screenspace.Routes.Untouched.{
  users-create_wallpaper, users-insert_favorite, users-create_report, wallpapers-create_user,
  wallpapers-insert_favorite, wallpapers-create_report,
}

-- Every account is still there, with its role and its ban.
abbrev pub SameRights : List User → List User → Type 0
SameRights us vs =
    (id : ℕ) (u : User)
    → find (user_id_is id) us ≡ some u
    → (v : User) × (find (user_id_is id) vs ≡ some v) × (v.role ≡ u.role) × (v.banned ≡ u.banned)

-- The status is one that only an admin gives.
abbrev pub IsDecided : String → Type 0
IsDecided s = (s ≡ status_approved) ⊎ (s ≡ status_rejected)

-- Every wallpaper that is approved or rejected was so before.
abbrev pub NoDecision : Database → Database → Type 0
NoDecision d d' =
    (id : ℕ) (v : Wallpaper)
    → find_wallpaper id d' ≡ some v
    → IsDecided v.status
    → (w : Wallpaper) × (find_wallpaper id d ≡ some w) × (w.status ≡ v.status)

abbrev pub Unprivileged : Database → Database → Type 0
Unprivileged d d' = SameRights d.users d'.users × NoDecision d d'

SameRights-refl : (us : List User) → SameRights us us
SameRights-refl us id u h = (u, h, refl, refl)

pub Unprivileged-order : IsPreorder Unprivileged
Unprivileged-order = record {
  same = λ d. (SameRights-refl d.users, λ id v h k. (v, h, refl));
  then_also = λ a b c p q. (
    λ id u h.
        let (v, found, role, banned) = p.0 id u h in
        let (v', found', role', banned') = q.0 id v found in
        (v', found', role' ∙ role, banned' ∙ banned),
    λ id v h k.
        let (w, found, same) = q.1 id v h k in
        let (w', found', same') = p.1 id w found (rw same k) in (w', found', same' ∙ same),
  );
}

not_decided : (s : String) → IsDecided s → (s ≡ status_pending) ⊎ (s ≡ status_pending_review) → ⊥
not_decided s (inl a) (inl b) = absurd (cc)
not_decided s (inl a) (inr b) = absurd (cc)
not_decided s (inr a) (inl b) = absurd (cc)
not_decided s (inr a) (inr b) = absurd (cc)

-- Tables with the same users and wallpapers.
others : (d d' : Database) → d'.users ≡ d.users → d'.wallpapers ≡ d.wallpapers → Unprivileged d d'
others d d' users wallpapers =
    (rw users (SameRights-refl d.users), λ id v h k. (v, rw wallpapers at h, refl))

-- An UPDATE that keeps each status, or makes it one that is not a decision.
updated-NoDecision :
    (j id : ℕ) (f : Wallpaper → Wallpaper) (o : Option Wallpaper) (v : Wallpaper)
    → ((w : Wallpaper) → ((f w).status ≡ w.status) ⊎ ((f w).status ≡ status_pending_review))
    → updated id j f o ≡ some v
    → IsDecided v.status
    → (w : Wallpaper) × (o ≡ some w) × (w.status ≡ v.status)
updated-NoDecision j id f none v harmless h k = absurd (cc)
updated-NoDecision j id f (some w) v harmless h k = elim (Bool-cases (j == id)) [
  | inl e ↦
      let same : f w ≡ v = (let h' = rw e at h in cc) in
      elim (harmless w) [
        | inl kept ↦ (w, refl, rw same at (sym kept))
        | inr review ↦ absurd (not_decided v.status k (inr (rw same at review)))
      ]
  | inr e ↦ (w, refl, let h' = rw e at h in cc)
]

update-Unprivileged :
    (d : Database) (id : ℕ) (f : Wallpaper → Wallpaper)
    → ((w : Wallpaper) → (f w).id ≡ w.id)
    → ((w : Wallpaper) → ((f w).status ≡ w.status) ⊎ ((f w).status ≡ status_pending_review))
    → Unprivileged d (update_wallpaper id f d)
unfolding update_wallpaper
update-Unprivileged d id f same_id harmless = (
  SameRights-refl d.users,
  λ j v h k.
      updated-NoDecision j id f (find_wallpaper j d) v harmless
        (sym (find-update_wallpaper id f same_id j d) ∙ h) k,
)

-- A row that an INSERT of a wallpaper adds is pending.
added-NoDecision :
    (j : ℕ) (ws : List Wallpaper) (x v : Wallpaper)
    → x.status ≡ status_pending
    → find (wallpaper_id_is j) (ws ++ x ∷ []) ≡ some v
    → IsDecided v.status
    → (w : Wallpaper) × (find (wallpaper_id_is j) ws ≡ some w) × (w.status ≡ v.status)
added-NoDecision j ws x v pending h k = elim (Option-cases (find (wallpaper_id_is j) ws)) [
  | inl missing ↦ absurd (
      not_decided v.status k (
        inl (
          let e = find-append (wallpaper_id_is j) ws (x ∷ []) in
          let e' : v ≡ x = ground arith in rw e' pending)))
  | inr (w, found) ↦ (w, found, let e = find-append (wallpaper_id_is j) ws (x ∷ []) in ground arith)
]

create_wallpaper-Unprivileged :
    (id now : ℕ) (title : String) (uploader : ℕ) (key : String) (category : Option String)
    (d : Database)
    → Unprivileged d (create_wallpaper id now title uploader key category d).1
unfolding create_wallpaper
create_wallpaper-Unprivileged id now title uploader key category d = (
  rw (users-create_wallpaper id now title uploader key category d) (SameRights-refl d.users),
  λ j v h k.
      let x = new_wallpaper id now title uploader key category in
      elim (Bool-cases (any (wallpaper_id_is id) d.wallpapers)) [
        | inl taken ↦ (v, rw taken at h, refl)
        | inr free ↦ elim (Bool-cases (any (user_id_is uploader) d.users)) [
          | inl known ↦ added-NoDecision j d.wallpapers x v refl (rw (free, known) at h) k
          | inr unknown ↦ (v, rw (free, unknown) at h, refl)
        ]
      ],
)

find-create_user :
    (j id now : ℕ) (email hash role : String) (d : Database) (u : User)
    → find (user_id_is j) d.users ≡ some u
    → find (user_id_is j) (create_user id now email hash role d).1.users ≡ some u
unfolding create_user
find-create_user j id now email hash role d u h =
    ground (arith, find-append (user_id_is j) d.users (new_user id now email hash role ∷ []))

increment-Unprivileged : (id : ℕ) (d : Database) → Unprivileged d (increment_download_count id d).1
unfolding increment_download_count
increment-Unprivileged id d =
    elim (Bool-cases
      (any (λ w. wallpaper_id_is id w && leb max_bigint w.download_count) d.wallpapers)) [
        | inl full ↦ rw full (Unprivileged-order.same d)
        | inr room ↦ rw room (update-Unprivileged d id _ (λ w. refl) (λ w. inl refl))
      ]

finalize-Unprivileged :
    (now : ℕ) (p : FinalizeParams) (id : ℕ) (d : Database)
    → p.status ≡ status_pending_review
    → Unprivileged d (update_wallpaper_after_finalize now p id d).1
unfolding update_wallpaper_after_finalize
finalize-Unprivileged now p id d review = elim (Option-cases (find_wallpaper id d)) [
  | inl missing ↦ rw (missing, update_wallpaper_after_finalize) (Unprivileged-order.same d)
  | inr (w, found) ↦
      rw (found, update_wallpaper_after_finalize)
        (update-Unprivileged d id _ (λ w. refl) (λ w. inr review))
]

pub Unprivileged-steps : (env : Env) (cfg : Config) → UserSteps env cfg Unprivileged
unfolding update_wallpaper_storage_key delete_favorite
Unprivileged-steps env cfg = record {
  created = create_wallpaper-Unprivileged;
  keyed = λ now key id d. update-Unprivileged d id _ (λ w. refl) (λ w. inl refl);
  counted = increment-Unprivileged;
  registered = λ id now email hash role d. (
    λ j u h. (u, find-create_user j id now email hash role d u h, refl, refl),
    λ j v h k. (v, rw (wallpapers-create_user id now email hash role d) at h, refl),
  );
  favorited = λ now u p d.
      others d (insert_favorite now u p d).1 (users-insert_favorite now u p d)
        (wallpapers-insert_favorite now u p d);
  unfavorited = λ u p d. others d (delete_favorite u p d).1 refl refl;
  reported = λ id now p u reason d.
      others d (create_report id now p u reason d).1 (users-create_report id now p u reason d)
        (wallpapers-create_report id now p u reason d);
  finalized = finalize-Keeps env cfg Unprivileged-order finalize-Unprivileged;
}
