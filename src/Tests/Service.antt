-- ===== src/Tests/Service.antt =====
-- The theorems on the services at concrete inputs.
use screenspace.Base.{[], ◌∷◌, ℕ, ◌≡◌, refl, not, ◌&&◌, ◌==◌, if◌then◌else◌, String}
use screenspace.Float64.{float_gt}
use screenspace.Db.Models.{Wallpaper, WallpaperRow, Report}
use screenspace.Db.Reports.{new_report, create_report}
use screenspace.Service.Report.{create, dismiss}
use screenspace.Service.Report.Accepted.{IsCreated, create_ok}
use screenspace.Db.Wallpapers.{
  find_wallpaper, to_row, get_wallpaper_by_id, update_wallpaper, update_wallpaper_after_finalize,
}
use screenspace.Server.Env.{ProbeResult}
use screenspace.Server.World.{World}
use screenspace.Server.Exec.{ok, ◌>>=◌, call, deferred, read, write, err}
use screenspace.Server.Exec.Inversion.{Returns}
use screenspace.Service.Wallpaper.{
  validate_video, finalize, publish, download_and_probe, probe_file, generate_and_upload_assets,
  render, upload, approve, reject, get_approved,
}
use screenspace.Service.Wallpaper.Decisions.{
  verdict, decide, approved_at, rejected_at, approve_lem, reject_lem,
}
use screenspace.Service.Wallpaper.Finalized.{finalized_row, IsFinalized, finalize_ok}
use screenspace.Apperr.{not_found}
use screenspace.Service.Wallpaper.Published.{get_approved-decided}
use screenspace.Service.Report.Dismissed.{IsDismissed, dismiss_lem}
use screenspace.Service.Favorite.{toggle}
use screenspace.Service.Favorite.Laws.{is_favorite, toggle_lem}
use screenspace.Tests.Sample.{
  sample_config, sample_env, sample_video, sample_world, sample_database, pending_wallpaper,
  reviewed_wallpaper,
}

-- The row that `Finalize` returns for wallpaper 1, and the state that it leaves.
abbrev finalized_wallpaper : WallpaperRow
finalized_wallpaper =
    to_row (finalized_row sample_env sample_config 1 sample_video 13 pending_wallpaper)

abbrev after_finalize : World
after_finalize = (finalize sample_env sample_config 1 1 sample_world).1

finalize_done :
    Returns (finalize sample_env sample_config 1 1) sample_world finalized_wallpaper after_finalize
unfolding finalize publish download_and_probe probe_file generate_and_upload_assets render upload
    validate_video float_gt ◌>>=◌ call deferred read write get_wallpaper_by_id update_wallpaper
    update_wallpaper_after_finalize
finalize_done = refl

finalize_ok_example :
    (v : Wallpaper) × (info : ProbeResult) × (now : ℕ) × IsFinalized sample_env sample_config 1 1
      sample_world after_finalize finalized_wallpaper v info now
finalize_ok_example =
    finalize_ok sample_env sample_config 1 1 sample_world after_finalize finalized_wallpaper
      finalize_done

approve_lem_example :
    ((approve sample_env 2 sample_world).0 ≡ verdict (find_wallpaper 2 sample_world.db))
    × (find_wallpaper 2 (approve sample_env 2 sample_world).1.db
        ≡ decide (approved_at 1) (find_wallpaper 2 sample_world.db))
approve_lem_example = approve_lem sample_env 2 sample_world refl refl

reject_lem_example :
    ((reject sample_env 2 "dark" sample_world).0 ≡ verdict (find_wallpaper 2 sample_world.db))
    × (find_wallpaper 2 (reject sample_env 2 "dark" sample_world).1.db
        ≡ decide (rejected_at 1 "dark") (find_wallpaper 2 sample_world.db))
reject_lem_example = reject_lem sample_env 2 sample_world refl refl "dark"

get_approved-decided_example :
    ((get_approved sample_env 2 sample_world).0 ≡ err (not_found "wallpaper not found"))
    × ((get_approved sample_env 2 (approve sample_env 2 sample_world).1).0
        ≡ ok (to_row (approved_at 1 reviewed_wallpaper)))
    × ((reason : String)
        → (get_approved sample_env 2 (reject sample_env 2 reason sample_world).1).0
          ≡ err (not_found "wallpaper not found"))
get_approved-decided_example =
    get_approved-decided sample_env (λ n. refl) 2 sample_world reviewed_wallpaper refl refl

toggle_lem_example :
    ((toggle sample_env 1 3 sample_world).0 ≡ ok (not (is_favorite 1 3 sample_world.db)))
    × ((v q : ℕ)
        → is_favorite v q (toggle sample_env 1 3 sample_world).1.db ≡ (
            if 1 == v && 3 == q
            then not (is_favorite 1 3 sample_world.db)
            else is_favorite v q sample_world.db))
toggle_lem_example = toggle_lem sample_env 1 3 sample_world refl refl refl

-- The first user reports the third wallpaper.
abbrev sample_report : Report
sample_report = new_report 10 0 3 1 "spam"

report_done :
    Returns
      (create sample_env sample_config 3 1 "spam")
      sample_world
      sample_report
      (create sample_env sample_config 3 1 "spam" sample_world).1
unfolding create create_report ◌>>=◌ write
report_done = refl

create_ok_example :
    IsCreated sample_config 3 1 "spam" sample_world.db
      (create sample_env sample_config 3 1 "spam" sample_world).1.db
      sample_report
create_ok_example =
    create_ok sample_env sample_config 3 1 "spam" sample_world
      (create sample_env sample_config 3 1 "spam" sample_world).1 sample_report report_done

-- Two reports wait.
abbrev reported_world : World
reported_world = record sample_world {
  db = record sample_database { reports = sample_report ∷ new_report 11 1 2 1 "dark" ∷ [] };
}

dismiss_lem_example :
    ((dismiss sample_env 10 reported_world).0 ≡ ok tt)
    × IsDismissed 10 reported_world.db (dismiss sample_env 10 reported_world).1.db
dismiss_lem_example = dismiss_lem sample_env 10 reported_world refl
