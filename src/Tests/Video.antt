-- ===== src/Tests/Video.antt =====
-- The theorems on the prober at concrete inputs.
use screenspace.Base.{◌≡◌, refl, some, [], ◌∷◌, pos, str_eq, if◌then◌else◌, int32}
use screenspace.Float64.{sixty, float_gt}
use screenspace.Strconv.{parse_int, show_int}
use screenspace.Db.Models.{WallpaperRow}
use screenspace.Db.Wallpapers.{
  to_row, get_wallpaper_by_id, update_wallpaper, update_wallpaper_after_finalize,
}
use screenspace.Server.Env.{Env}
use screenspace.Server.World.{World}
use screenspace.Server.Exec.{◌>>=◌, deferred, call, read, write}
use screenspace.Server.Exec.Inversion.{Returns}
use screenspace.Service.Wallpaper.{
  finalize, publish, download_and_probe, probe_file, validate_video, generate_and_upload_assets,
  render, upload,
}
use screenspace.Service.Wallpaper.Finalized.{finalized_row}
use screenspace.Video.{
  Tools, FfprobeOutput, FfprobeStream, normalize_codec, probe_info, probe, generate_thumbnail,
  generate_preview, with_ffprober,
}
use screenspace.Video.Probed.{IsRowOf, finalize-IsRowOf}
use screenspace.Tests.Sample.{
  sample_config, sample_env, sample_video, sample_world, pending_wallpaper,
}

-- An audio stream, and then a picture of 1920 x 1080.
abbrev sample_output : FfprobeOutput
sample_output = record {
  streams =
      record { width = pos 0; height = pos 0; codec_name = "aac" }
      ∷ record { width = pos 1920; height = pos 1080; codec_name = "AVC1" }
      ∷ [];
  format = record { duration = "60.0"; size = "1000" };
}

abbrev sample_tools : Tools
sample_tools = record {
  run = λ n command args. some "output";
  unmarshal = λ s. some sample_output;
  parse_float = λ s. some sixty;
  to_lower = λ s. if str_eq s "AVC1" then "avc1" else s;
}

abbrev probing_env : Env
probing_env = with_ffprober sample_tools sample_env

probe_test : probe sample_tools 0 "tmp" ≡ some sample_video
unfolding probe probe_info normalize_codec parse_int
probe_test = refl

abbrev after_finalize : World
after_finalize = (finalize probing_env sample_config 1 1 sample_world).1

abbrev finalized : WallpaperRow
finalized = to_row (finalized_row probing_env sample_config 1 sample_video 13 pending_wallpaper)

finalize_done :
    Returns (finalize probing_env sample_config 1 1) sample_world finalized after_finalize
unfolding finalize publish download_and_probe probe_file validate_video generate_and_upload_assets
    render upload get_wallpaper_by_id update_wallpaper_after_finalize update_wallpaper float_gt
    show_int int32 ◌>>=◌ deferred call read write probe probe_info normalize_codec parse_int
    generate_thumbnail generate_preview
finalize_done = refl

finalize-IsRowOf_example :
    (o : FfprobeOutput) × (s : FfprobeStream) × IsRowOf sample_tools sample_config finalized o s
finalize-IsRowOf_example =
    finalize-IsRowOf sample_tools sample_env sample_config 1 1 sample_world after_finalize finalized
      finalize_done
