-- ===== src/Tests/Files.antt =====
-- The theorems on temporary files at concrete inputs.
use screenspace.Base.{◌⊎◌, ◌≡◌, refl, true, false, [], ◌∷◌}
use screenspace.Float64.{float_gt}
use screenspace.Db.Wallpapers.{
  get_wallpaper_by_id, update_wallpaper, update_wallpaper_after_finalize,
}
use screenspace.Server.Env.{Env}
use screenspace.Server.World.{World}
use screenspace.Server.Exec.{◌>>=◌, deferred, call, read, write}
use screenspace.Service.Wallpaper.{
  finalize, publish, download_and_probe, probe_file, validate_video, generate_and_upload_assets,
  render, upload,
}
use screenspace.Service.Wallpaper.Clean.{has_file}
use screenspace.Service.Wallpaper.Files.{IsPartial, finalize-has_file}
use screenspace.Tests.Sample.{sample_config, sample_env, sample_world}

abbrev with_file : World
with_file = record sample_world { files = "other" ∷ [] }

other_stays : has_file "other" (finalize sample_env sample_config 1 1 with_file).1 ≡ true
unfolding finalize publish download_and_probe probe_file generate_and_upload_assets render upload
    validate_video float_gt ◌>>=◌ call deferred read write get_wallpaper_by_id update_wallpaper
    update_wallpaper_after_finalize
other_stays = refl

finalize-has_file_example : (has_file "other" with_file ≡ true) ⊎ IsPartial sample_env "other"
finalize-has_file_example =
    finalize-has_file sample_env sample_config 1 1 with_file "other" other_stays

-- A server whose ffmpeg fails in the middle of a thumbnail, which stays.
abbrev broken_env : Env
broken_env = record sample_env {
  generate_thumbnail = λ n input output. false;
  leaves_partial = λ n path. true;
}

partial_stays :
    has_file "tmp_thumb.jpg" (finalize broken_env sample_config 1 1 sample_world).1 ≡ true
unfolding finalize publish download_and_probe probe_file generate_and_upload_assets render upload
    validate_video float_gt ◌>>=◌ call deferred read write get_wallpaper_by_id
partial_stays = refl
