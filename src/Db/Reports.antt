-- ===== src/Db/Reports.antt =====
-- server/db/generated/report.sql.go.
use screenspace.Base.{
  ℕ, String, Bool, List, [], ◌∷◌, ◌++◌, ◌&&◌, ℤ, ◌==◌, str_eq, if◌then◌else◌, any, filter, map_if,
  leb, length,
}
use screenspace.Db.Models.{
  Report, Database, Reply, done, failed, unique_violation, foreign_key_violation, page,
}
use screenspace.Db.Order.{order_by}
use screenspace.Db.Users.{user_id_is}
use screenspace.Db.Wallpapers.{wallpaper_id_is}

abbrev pub report_pending : String
report_pending = "pending"

abbrev pub report_dismissed : String
report_dismissed = "dismissed"

abbrev pub report_id_is : ℕ → Report → Bool
report_id_is id r = r.id == id

abbrev pub new_report : ℕ → ℕ → ℕ → ℕ → String → Report
new_report id now wallpaper_id reporter_id reason = record {
  id = id;
  wallpaper_id = wallpaper_id;
  reporter_id = reporter_id;
  reason = reason;
  status = report_pending;
  created_at = now;
}

-- `CreateReport`
unfoldable pub create_report : ℕ → ℕ → ℕ → ℕ → String → Database → Reply Report × Database
create_report id now wallpaper_id reporter_id reason db =
    let r = new_report id now wallpaper_id reporter_id reason in
    if any (report_id_is id) db.reports
    then (failed unique_violation, db)
    else if any (wallpaper_id_is wallpaper_id) db.wallpapers
        && any (user_id_is reporter_id) db.users
    then (done r, record db { reports = db.reports ++ r ∷ [] })
    else (failed foreign_key_violation, db)

abbrev pub is_pending : Report → Bool
is_pending r = str_eq r.status report_pending

-- ORDER BY created_at DESC
abbrev pub newer_report : Report → Report → Bool
newer_report r s = leb s.created_at r.created_at

-- `ListPendingReports`
unfoldable pub list_pending_reports : (ℤ → ℤ → ℕ → ℕ) → ℤ → ℤ → Database → Reply (List Report)
unfolding order_by page
list_pending_reports ties lim off db =
    page lim off (order_by (λ r. ties lim off r.id) newer_report (filter is_pending db.reports))

-- `CountPendingReports`
unfoldable pub count_pending_reports : Database → Reply ℕ
count_pending_reports db = done (length (filter is_pending db.reports))

-- `DismissReport`
unfoldable pub dismiss_report : ℕ → Database → Reply (Unit {0}) × Database
dismiss_report id db = (
  done tt,
  record db {
    reports = map_if (report_id_is id) (λ r. record r { status = report_dismissed }) db.reports;
  },
)
