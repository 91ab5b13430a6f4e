-- ===== src/Handler/Admin/Queue.antt =====
-- What `Queue` does with the rows that it lists without a handler.
use screenspace.Base.{
  ℕ, suc, ◌≡◌, refl, Bool, true, not, ◌&&◌, List, [], ◌∷◌, any, map, str_eq, if◌then◌else◌,
  Bool-cases, inl, inr, int32, none,
}
use screenspace.Config.{Config}
use screenspace.Types.{status_pending_review}
use screenspace.Db.Models.{WallpaperRow, Reply, done}
use screenspace.Db.Wallpapers.{list_wallpapers_recent, count_wallpapers}
use screenspace.Server.Env.{Env}
use screenspace.Server.World.{World}
use screenspace.Server.Exec.{ok, panicked, ◌>>=◌, read}
use screenspace.Server.Json.{Json, obj, end, paginated}
use screenspace.Server.Request.{Request}
use screenspace.Handler.Adapter.{each}
use screenspace.Handler.Rows.{row_fields, url_of, url_fields, row_to_map}
use screenspace.Handler.Wallpaper.{default_page}
use screenspace.Handler.Admin.{list_by_status, queue}

-- The row has a thumbnail or a preview.
abbrev pub has_asset : WallpaperRow → Bool
has_asset row = not (str_eq row.thumbnail_key "" && str_eq row.preview_key "")

-- The map of a row without URLs.
abbrev pub bare_map : Env → WallpaperRow → Json
bare_map env row = obj (row_fields env row end)

module _ (env : Env) where
  row_to_map-none :
      (row : WallpaperRow) (w : World)
      → row_to_map env none row w ≡ ((if has_asset row then panicked else ok (bare_map env row)), w)
  unfolding row_to_map url_fields url_of ◌>>=◌
  row_to_map-none row w = elim (Bool-cases (str_eq row.thumbnail_key "")) [
    | inl no_thumbnail ↦ elim (Bool-cases (str_eq row.preview_key "")) [
      | inl no_preview ↦ rw (no_thumbnail, no_preview) refl
      | inr preview ↦ rw (no_thumbnail, preview) refl
    ]
    | inr thumbnail ↦ rw thumbnail refl
  ]

  each-none :
      (rows : List WallpaperRow) (w : World)
      → each (row_to_map env none) rows w
        ≡ ((if any has_asset rows then panicked else ok (map (bare_map env) rows)), w)
  unfolding each ◌>>=◌
  each-none [] w = refl
  each-none (row ∷ rows) w = elim (Bool-cases (has_asset row)) [
    | inl has ↦ rw (row_to_map-none row w, has) refl
    | inr has_not ↦ elim (Bool-cases (any has_asset rows)) [
      | inl later ↦ rw (row_to_map-none row w, has_not) (rw (each-none rows w, later) refl)
      | inr never ↦ rw (row_to_map-none row w, has_not) (rw (each-none rows w, never) refl)
    ]
  ]

module _ (env : Env) (cfg : Config) (r : Request) (w : World) where
  -- The rows of the page that the request asks for, in review.
  abbrev pub queue_page : Reply (List WallpaperRow)
  queue_page =
      let pg = default_page cfg r in
      list_wallpapers_recent env.ilike env.tie_rank status_pending_review none none (int32 pg.limit)
        (int32 pg.offset) w.db

  -- While the database can be reached, the review queue of a page that can be listed panics exactly
  -- when one of its wallpapers has a thumbnail or a preview, and otherwise answers with its rows
  -- and the number of all wallpapers in review.
  pub queue_lem :
      (rows : List WallpaperRow) (total : ℕ)
      → env.db_up w.calls ≡ true
      → env.db_up (suc w.calls) ≡ true
      → queue_page ≡ done rows
      → count_wallpapers env.ilike status_pending_review none none w.db ≡ done total
      → (queue env cfg r w).0 ≡ (
          if any has_asset rows
          then panicked
          else ok (
              paginated
                (map (bare_map env) rows)
                total
                (default_page cfg r).limit
                (default_page cfg r).offset))
  unfolding queue list_by_status ◌>>=◌ read
  queue_lem rows total up up' listed counted = elim (Bool-cases (any has_asset rows)) [
    | inl some_asset ↦
        rw (up, listed) (rw (up', counted) (rw (each-none env rows _, some_asset) refl))
    | inr no_asset ↦ rw (up, listed) (rw (up', counted) (rw (each-none env rows _, no_asset) refl))
  ]
