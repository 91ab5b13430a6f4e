-- ===== src/Tests/Interleaved.antt =====
-- The theorems on overlapping requests at concrete inputs.
use screenspace.Base.{◌≡◌, refl, [], ◌∷◌}
use screenspace.Types.{status_approved, status_pending_review}
use screenspace.Db.Models.{done}
use screenspace.Db.Wallpapers.{to_row, get_wallpaper_by_id}
use screenspace.Service.Wallpaper.Interleaved.{
  Shared, Prepared, Reach, here, next, approve_tested, reject_tested, committed, approving,
  rejecting, commit,
}
use screenspace.Service.Wallpaper.Interleaved.Order.{Interleaves, Step-Interleaves}
use screenspace.Service.Wallpaper.Interleaved.Race.{HasStatus, quiet, approved-reopens}
use screenspace.Float64.{float_gt}
use screenspace.Server.World.{World}
use screenspace.Server.Exec.{◌>>=◌, call, deferred}
use screenspace.Service.Wallpaper.{
  download_and_probe, probe_file, validate_video, generate_and_upload_assets, render, upload,
}
use screenspace.Tests.Sample.{
  sample_world, sample_config, sample_env, sample_database, sample_video, pending_wallpaper,
  reviewed_wallpaper,
}

abbrev start : Shared
start = record { db = sample_database; preparing = []; underway = [] }

-- One admin approves and another rejects the wallpaper in review; both have read its row.
abbrev both_tested : Shared
both_tested = record {
  db = sample_database;
  preparing = [];
  underway = rejecting 2 "blurry" ∷ approving 2 ∷ [];
}

abbrev rejected_first : Shared
rejected_first = record {
  db = commit sample_env sample_config 5 (rejecting 2 "blurry") sample_database;
  preparing = [];
  underway = approving 2 ∷ [];
}

read_reviewed : get_wallpaper_by_id 2 sample_database ≡ done (to_row reviewed_wallpaper)
unfolding get_wallpaper_by_id
read_reviewed = refl

both_tested-Reach : Reach sample_env sample_config start both_tested
both_tested-Reach =
    next (next here (approve_tested 2 (to_row reviewed_wallpaper) read_reviewed refl))
      (reject_tested 2 "blurry" (to_row reviewed_wallpaper) read_reviewed refl)

Step-Interleaves_example : Interleaves both_tested.db rejected_first.db
Step-Interleaves_example =
    Step-Interleaves sample_env sample_config both_tested-Reach refl refl
      (committed 5 [] (rejecting 2 "blurry") (approving 2 ∷ []) refl)

abbrev after_probe : World
after_probe = (download_and_probe sample_env sample_config 1 sample_world).1

abbrev after_upload : World
after_upload = (generate_and_upload_assets sample_env 1 "tmp" after_probe).1

sample_video-Prepared :
    Prepared sample_env sample_config 1 sample_video "wallpapers/one/thumbnail.jpg"
      "wallpapers/one/preview.mp4"
unfolding download_and_probe probe_file validate_video generate_and_upload_assets render upload
    float_gt ◌>>=◌ call deferred
sample_video-Prepared = record {
  path = "tmp";
  start = sample_world;
  probed = after_probe;
  resumed = after_probe;
  stored = after_upload;
  downloaded = refl;
  valid = refl;
  uploaded = refl;
}

approved-reopens_example :
    (s : Shared) × (t : Shared) × Reach sample_env sample_config (quiet sample_database) s
    × HasStatus 1 status_approved s.db
    × Reach sample_env sample_config s t
    × HasStatus 1 status_pending_review t.db
approved-reopens_example =
    approved-reopens sample_env sample_config sample_video "wallpapers/one/thumbnail.jpg"
      "wallpapers/one/preview.mp4" 1 5 sample_database pending_wallpaper sample_video-Prepared refl
      refl
