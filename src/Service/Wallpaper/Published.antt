-- ===== src/Service/Wallpaper/Published.antt =====
-- What everybody sees of a wallpaper before and after it is decided on.
use screenspace.Base.{ℕ, suc, String, ◌≡◌, refl, ◌∙◌, ap, true, some, arith, eq_iff, str_eq}
use screenspace.Types.{status_pending_review}
use screenspace.Apperr.{not_found}
use screenspace.Db.Models.{Wallpaper}
use screenspace.Db.Wallpapers.{find_wallpaper, to_row}
use screenspace.Server.Env.{Env}
use screenspace.Server.World.{World}
use screenspace.Server.Exec.{ok, err}
use screenspace.Service.Wallpaper.{approve, reject, get_approved}
use screenspace.Service.Wallpaper.Decisions.{
  approved_at, rejected_at, decide, shown, approve_lem, reject_lem, get_approved_lem,
}

module _ (env : Env) (up : (n : ℕ) → env.db_up n ≡ true) (id : ℕ) (w : World) (v : Wallpaper)
    (found : find_wallpaper id w.db ≡ some v) (review : v.status ≡ status_pending_review) where
  reviewed : str_eq v.status status_pending_review ≡ true
  reviewed = ground (arith, eq_iff v.status status_pending_review, review)

  -- While the database can be reached, `GetApproved` answers for a wallpaper in review that there is
  -- none; after `Approve` it returns the wallpaper, approved at the time of the update; and after
  -- `Reject`, for whatever reason, there is none as before.
  pub get_approved-decided :
      ((get_approved env id w).0 ≡ err (not_found "wallpaper not found"))
      × ((get_approved env id (approve env id w).1).0
          ≡ ok (to_row (approved_at (env.db_now (suc w.calls)) v)))
      × ((reason : String)
          → (get_approved env id (reject env id reason w).1).0
            ≡ err (not_found "wallpaper not found"))
  get_approved-decided =
      let ready = up w.calls in
      let ready' = up (suc w.calls) in
      let after = (approve env id w).1 in
      (
        (get_approved_lem env id w ready).0 ∙ rw (found, review) refl,
        (get_approved_lem env id after (up after.calls)).0
            ∙ ap shown (
                (approve_lem env id w ready ready').1
                ∙ ap (decide (approved_at (env.db_now (suc w.calls)))) found)
            ∙ rw reviewed refl,
        λ reason.
            let declined = (reject env id reason w).1 in
            (get_approved_lem env id declined (up declined.calls)).0
            ∙ ap shown (
                (reject_lem env id w ready ready' reason).1
                ∙ ap (decide (rejected_at (env.db_now (suc w.calls)) reason)) found)
            ∙ rw reviewed refl,
      )
