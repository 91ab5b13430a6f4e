-- ===== src/Service/Wallpaper/Video.antt =====
-- The steps of `Finalize` that handle the video leave the tables alone.
use screenspace.Base.{ℕ, String, Bool, Option, none, some}
use screenspace.Config.{Config}
use screenspace.Server.Env.{Env, ProbeResult}
use screenspace.Apperr.{Error}
use screenspace.Server.Exec.Keeps.{Keeps, keeps_rules}
use screenspace.Server.Exec.From.{Same, Same-order}
use screenspace.Service.Wallpaper.{
  upload, render, generate_and_upload_assets, probed_file, probe_file, download_and_probe,
  throw_some,
}

ruleset same_rules = (keeps_rules, Same-order)

module _ (env : Env) where
  pub upload-Same : (key t a b : String) → Keeps Same (upload env key t a b)
  unfolding upload
  upload-Same key t a b = search same_rules depth 12

  render-Same :
      (run : ℕ → String → Bool) (path label : String) → Keeps Same (render env run path label)
  unfolding render
  render-Same run path label = search same_rules depth 12

  pub generate_and_upload_assets-Same :
      (id : ℕ) (path : String) → Keeps Same (generate_and_upload_assets env id path)
  unfolding generate_and_upload_assets
  generate_and_upload_assets-Same id path = search (same_rules, upload-Same, render-Same) depth 12

  probed_file-Same : (path : String) (o : Option ProbeResult) → Keeps Same (probed_file env path o)
  probed_file-Same path none = search same_rules depth 12
  probed_file-Same path (some info) = search same_rules depth 12

  probe_file-Same : (path : String) → Keeps Same (probe_file env path)
  unfolding probe_file
  probe_file-Same path = search (same_rules, probed_file-Same) depth 12

module _ (env : Env) (cfg : Config) where
  pub download_and_probe-Same : (id : ℕ) → Keeps Same (download_and_probe env cfg id)
  unfolding download_and_probe
  download_and_probe-Same id = search (same_rules, probe_file-Same) depth 14

  pub throw_some-Same : (o : Option Error) → Keeps Same (throw_some env cfg o)
  throw_some-Same none = search same_rules
  throw_some-Same (some e) = search same_rules
