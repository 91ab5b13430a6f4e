-- ===== src/Handler/Wallpaper/Downloaded.antt =====
-- What a successful `Download` has established.
use screenspace.Base.{ℕ, suc, ◌+◌, ◌≤◌, false, Bool, List, ◌∷◌, ◌++◌, String, ◌≡◌, ◌⊎◌, some}
use screenspace.Types.{status_approved}
use screenspace.Db.Models.{Wallpaper, Database}
use screenspace.Db.Wallpapers.{find_wallpaper, max_bigint}
use screenspace.Server.Env.{Env}
use screenspace.Server.World.{World}
use screenspace.Server.Json.{Response}
use screenspace.Server.Request.{Request}
use screenspace.Handler.Rows.{WallpaperHandler}
use screenspace.Handler.Wallpaper.{one_text}

-- A row of the wallpaper whose count has no room for one more.
abbrev pub IsFull : ℕ → Database → Type 0
IsFull id d =
    (before : List Wallpaper) × (x : Wallpaper) × (after : List Wallpaper) × (d.wallpapers
      ≡ before ++ x ∷ after)
    × (x.id ≡ id)
    × (max_bigint ≤ x.download_count)

-- The wallpaper has one more download; or the tables are as they were, with the reason for it.
abbrev pub IsCounted : Bool → ℕ → Wallpaper → Database → Database → Type 0
IsCounted up id v d d' =
    (find_wallpaper id d' ≡ some (record v { download_count = v.download_count + 1 }))
    ⊎ ((d' ≡ d) × ((up ≡ false) ⊎ IsFull id d))

module _ (env : Env) (h : WallpaperHandler) where
  -- The wallpaper of a download, and its URL.
  pub record IsDownload (r : Request) (d d' : Database) (response : Response) : Type 0 where
    pub id : ℕ
    pub wallpaper : Wallpaper
    pub calls : ℕ
    pub url : String
    pub requested : env.parse_uuid r.id ≡ some id
    pub found : find_wallpaper id d ≡ some wallpaper
    pub approved : wallpaper.status ≡ status_approved
    pub signed :
        env.presigned_url calls wallpaper.storage_key h.cfg.presigned_download_expiry ≡ some url
    pub answered : response ≡ one_text "download_url" url
    pub counted : IsCounted (env.db_up (suc calls)) id wallpaper d d'
