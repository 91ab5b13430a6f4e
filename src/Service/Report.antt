-- ===== src/Service/Report.antt =====
-- server/internal/service/report.go: `ReportService`.
pub mod Accepted
pub mod Dismissed
use Prim.Native.String.{len, ◌++◌ as append}
use screenspace.Base.{ℕ, String, pos, ltb_ℤ, str_eq}
use screenspace.Apperr.{bad_request, internal}
use screenspace.Config.{Config}
use screenspace.Strconv.{show_int}
use screenspace.Db.Models.{Report}
use screenspace.Db.Reports.{create_report, dismiss_report}
use screenspace.Server.Env.{Env}
use screenspace.Server.Exec.{Exec, throw_if, ◌>>=◌, ◌>>◌, write, reply_or}

module _ (env : Env) (cfg : Config) where
  abbrev reason_too_long : String
  reason_too_long =
      append "reason must be " (append (show_int cfg.max_report_length) " characters or fewer")

  -- `Create`; `len` counts bytes, in Go as here.
  unfoldable pub create : ℕ → ℕ → String → Exec Report
  create wallpaper_id reporter_id reason = do
    throw_if (str_eq reason "") (bad_request "reason is required")
    throw_if (ltb_ℤ cfg.max_report_length (pos (len reason))) (bad_request reason_too_long)
    created ←
        write env
          (λ n. create_report (env.new_uuid n) (env.db_now n) wallpaper_id reporter_id reason)
    reply_or created (internal "create report")

module _ (env : Env) where
  -- `Dismiss`
  unfoldable pub dismiss : ℕ → Exec (Unit {0})
  dismiss report_id = do
    dismissed ← write env (λ n. dismiss_report report_id)
    reply_or dismissed (internal "dismiss report")
