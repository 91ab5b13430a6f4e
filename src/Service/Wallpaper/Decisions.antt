-- ===== src/Service/Wallpaper/Decisions.antt =====
-- What `Approve`, `Reject` and `GetApproved` answer and store, on every branch.
use screenspace.Base.{
  ℕ, suc, String, ◌≡◌, refl, true, Option, none, some, str_eq, if◌then◌else◌, Option-cases,
  Bool-cases, inl, inr,
}
use screenspace.Types.{status_pending_review, status_approved, status_rejected}
use screenspace.Apperr.{not_found, bad_request}
use screenspace.Db.Models.{Wallpaper, WallpaperRow}
use screenspace.Db.Wallpapers.{
  find_wallpaper, to_row, get_wallpaper_by_id, update_wallpaper_status,
  update_wallpaper_status_with_reason,
}
use screenspace.Db.Wallpapers.Laws.{find-map_if_self}
use screenspace.Server.Env.{Env}
use screenspace.Server.World.{World}
use screenspace.Server.Exec.{Result, ok, err, ◌>>=◌, read, write}
use screenspace.Service.Wallpaper.{approve, reject, get_approved}

-- The answer to a decision on the wallpaper that is found: only one in review is decided on.
abbrev pub verdict : Option Wallpaper → Result (Unit {0})
verdict none = err (not_found "wallpaper not found")
verdict (some v) =
    if str_eq v.status status_pending_review
    then ok tt
    else err (bad_request "wallpaper is not in pending_review status")

-- What is stored: a decided wallpaper changes, any other stays.
abbrev pub decide : (Wallpaper → Wallpaper) → Option Wallpaper → Option Wallpaper
decide f none = none
decide f (some v) = some (if str_eq v.status status_pending_review then f v else v)

abbrev pub approved_at : ℕ → Wallpaper → Wallpaper
approved_at now v = record v { status = status_approved; updated_at = now }

abbrev pub rejected_at : ℕ → String → Wallpaper → Wallpaper
rejected_at now reason v = record v {
  status = status_rejected;
  rejection_reason = some reason;
  updated_at = now;
}

module _ (env : Env) (id : ℕ) (w : World) (up : env.db_up w.calls ≡ true)
    (up' : env.db_up (suc w.calls) ≡ true) where
  -- While the database can be reached, `Approve` gives each wallpaper its verdict, and stores it.
  pub approve_lem :
      ((approve env id w).0 ≡ verdict (find_wallpaper id w.db))
      × (find_wallpaper id (approve env id w).1.db
          ≡ decide (approved_at (env.db_now (suc w.calls))) (find_wallpaper id w.db))
  unfolding approve ◌>>=◌ read write get_wallpaper_by_id update_wallpaper_status
  approve_lem = elim (Option-cases (find_wallpaper id w.db)) [
    | inl missing ↦ rw (up, missing, get_wallpaper_by_id) (refl, missing)
    | inr (v, found) ↦ elim (Bool-cases (str_eq v.status status_pending_review)) [
      | inl review ↦
          rw (up, found, get_wallpaper_by_id)
            (rw review (rw up' (refl, find-map_if_self id _ (λ x. refl) w.db.wallpapers found)))
      | inr other ↦ rw (up, found, get_wallpaper_by_id) (rw other (refl, found))
    ]
  ]

  -- While the database can be reached, `Reject` gives each wallpaper the same verdict, and stores
  -- it with the reason.
  pub reject_lem :
      (reason : String)
      → ((reject env id reason w).0 ≡ verdict (find_wallpaper id w.db))
        × (find_wallpaper id (reject env id reason w).1.db
            ≡ decide (rejected_at (env.db_now (suc w.calls)) reason) (find_wallpaper id w.db))
  unfolding reject ◌>>=◌ read write get_wallpaper_by_id update_wallpaper_status_with_reason
  reject_lem reason = elim (Option-cases (find_wallpaper id w.db)) [
    | inl missing ↦ rw (up, missing, get_wallpaper_by_id) (refl, missing)
    | inr (v, found) ↦ elim (Bool-cases (str_eq v.status status_pending_review)) [
      | inl review ↦
          rw (up, found, get_wallpaper_by_id)
            (rw review (rw up' (refl, find-map_if_self id _ (λ x. refl) w.db.wallpapers found)))
      | inr other ↦ rw (up, found, get_wallpaper_by_id) (rw other (refl, found))
    ]
  ]

-- The answer of `GetApproved`: a wallpaper is shown only if it is approved.
abbrev pub shown : Option Wallpaper → Result WallpaperRow
shown none = err (not_found "wallpaper not found")
shown (some v) =
    if str_eq v.status status_approved then ok (to_row v) else err (not_found "wallpaper not found")

module _ (env : Env) (id : ℕ) (w : World) (up : env.db_up w.calls ≡ true) where
  -- While the database can be reached, `GetApproved` returns the wallpaper if it is approved, and
  -- answers that there is none otherwise; the tables stay as they are.
  pub get_approved_lem :
      ((get_approved env id w).0 ≡ shown (find_wallpaper id w.db))
      × ((get_approved env id w).1.db ≡ w.db)
  unfolding get_approved ◌>>=◌ read get_wallpaper_by_id
  get_approved_lem = elim (Option-cases (find_wallpaper id w.db)) [
    | inl missing ↦ rw (up, missing, get_wallpaper_by_id) (refl, refl)
    | inr (v, found) ↦ elim (Bool-cases (str_eq v.status status_approved)) [
      | inl visible ↦ rw (up, found, get_wallpaper_by_id) (rw visible (refl, refl))
      | inr other ↦ rw (up, found, get_wallpaper_by_id) (rw other (refl, refl))
    ]
  ]
