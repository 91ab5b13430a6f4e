-- ===== src/Tests/Created.antt =====
-- The theorems on `Create` and `Download` at concrete inputs.
use screenspace.Base.{refl, none, some}
use screenspace.Types.{category_valid}
use screenspace.Db.Wallpapers.{create_wallpaper, update_wallpaper, update_wallpaper_storage_key}
use screenspace.Server.World.{World}
use screenspace.Server.Exec.{◌>>=◌, call, write}
use screenspace.Server.Exec.Inversion.{Returns}
use screenspace.Server.Request.{Request}
use screenspace.Handler.Rows.{WallpaperHandler}
use screenspace.Handler.Wallpaper.{create, create_row, download}
use screenspace.Handler.Wallpaper.Created.{upload_response, IsCreated, create-IsCreated}
use screenspace.Tests.Sample.{sample_config, sample_env, sample_world, sample_request}

abbrev handler : WallpaperHandler
handler = record { cfg = sample_config; start_time = 0 }

abbrev create_request : Request
create_request = record (sample_request "one") {
  body = some (record {
    title = "sky";
    category = "nature";
    tags = none;
    reason = "";
    email = "";
    password = "";
  });
}

abbrev after_create : World
after_create = (create sample_env handler create_request sample_world).1

create_done :
    Returns
      (create sample_env handler create_request)
      sample_world
      (upload_response sample_env handler 10 "url")
      after_create
unfolding create create_row category_valid create_wallpaper update_wallpaper_storage_key
    update_wallpaper ◌>>=◌ call write
create_done = refl

create-IsCreated_example :
    IsCreated sample_env handler create_request sample_world.db after_create.db
      (upload_response sample_env handler 10 "url")
create-IsCreated_example =
    create-IsCreated sample_env handler create_request sample_world after_create
      (upload_response sample_env handler 10 "url") create_done

-- Wallpaper 3 is approved.
abbrev after_download : World
after_download = (download sample_env handler (sample_request "three") sample_world).1
