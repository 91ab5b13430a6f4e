-- ===== src/Service/Report/Dismissed.antt =====
-- What `Dismiss` does to the queue of pending reports.
use screenspace.Base.{
  ℕ, ◌≡◌, refl, ap, true, not, List, [], ◌∷◌, filter, map_if, length, ℤ, arith, Bool-cases, inl,
  inr,
}
use screenspace.Db.Models.{Report, Database, done, page}
use screenspace.Db.Order.{order_by}
use screenspace.Db.Reports.{
  report_id_is, report_dismissed, is_pending, newer_report, list_pending_reports,
  count_pending_reports, dismiss_report,
}
use screenspace.Server.Env.{Env}
use screenspace.Server.World.{World}
use screenspace.Server.Exec.{ok, ◌>>=◌, write}
use screenspace.Service.Report.{dismiss}

-- The tables as if the report had never been made.
abbrev pub without_report : ℕ → Database → Database
without_report id d = record d { reports = filter (λ r. not (report_id_is id r)) d.reports }

abbrev mark_dismissed : ℕ → List Report → List Report
mark_dismissed id = map_if (report_id_is id) (λ r. record r { status = report_dismissed })

pending-mark_dismissed :
    (id : ℕ) (rs : List Report)
    → filter is_pending (mark_dismissed id rs)
      ≡ filter is_pending (filter (λ r. not (report_id_is id r)) rs)
pending-mark_dismissed id [] = refl
pending-mark_dismissed id (r ∷ rs) = elim (Bool-cases (report_id_is id r)) [
  | inl hit ↦ rw hit (pending-mark_dismissed id rs)
  | inr miss ↦ rw miss (elim (Bool-cases (is_pending r)) [
    | inl pending ↦ rw pending (ap (λ l. r ∷ l) (pending-mark_dismissed id rs))
    | inr closed ↦ rw closed (pending-mark_dismissed id rs)
  ])
]

length-mark_dismissed : (id : ℕ) (rs : List Report) → length (mark_dismissed id rs) ≡ length rs
length-mark_dismissed id [] = refl
length-mark_dismissed id (r ∷ rs) = omega (arith, length-mark_dismissed id rs)

-- The report has left every page of the queue and its total; the others, in their order, and every
-- other table are as they were, and no report has been deleted.
pub record IsDismissed (id : ℕ) (d d' : Database) : Type 0 where
  pub pages :
      (ties : ℤ → ℤ → ℕ → ℕ) (lim off : ℤ)
      → list_pending_reports ties lim off d'
        ≡ list_pending_reports ties lim off (without_report id d)
  pub total : count_pending_reports d' ≡ count_pending_reports (without_report id d)
  pub others : record d' { reports = d.reports } ≡ d
  pub kept : length d'.reports ≡ length d.reports

module _ (env : Env) (id : ℕ) (w : World) (up : env.db_up w.calls ≡ true) where
  -- While the database can be reached, `Dismiss` succeeds for any id, also for one that no report has,
  -- where the API's description promises a 404; and the queue is then as if
  -- the report with that id had never been made: every page of the pending reports, with
  -- any order of those made at the same time, and their number are those of the tables without it. No report is deleted, and no other table changes.
  pub dismiss_lem : ((dismiss env id w).0 ≡ ok tt) × IsDismissed id w.db (dismiss env id w).1.db
  unfolding dismiss ◌>>=◌ write dismiss_report list_pending_reports count_pending_reports
  dismiss_lem = rw up (
    refl,
    record {
      pages = λ ties lim off.
          ap (λ rs. page lim off (order_by (λ r. ties lim off r.id) newer_report rs))
            (pending-mark_dismissed id w.db.reports);
      total = ap (λ (rs : List Report). done (length rs)) (pending-mark_dismissed id w.db.reports);
      others = refl;
      kept = length-mark_dismissed id w.db.reports;
    },
  )
