-- ===== src/Db/Wallpapers/Listing.antt =====
-- What the public listings hold.
use screenspace.Base.{
  refl, ℕ, ◌≡◌, refl, ◌≤◌, String, Bool, Option, List, [], ◌∷◌, ℤ, pos, negsuc, take, drop, filter,
  map, length, All, All-take, All-drop, All-filter, length-take, arith, eq_iff,
}
use screenspace.Db.Models.{Wallpaper, WallpaperRow, Database, Reply, done, failed, page}
use screenspace.Db.Order.{order_by, order_by-All}
use screenspace.Db.Wallpapers.{
  selected, newer, rows, more_popular, to_row, list_wallpapers_recent, list_wallpapers_popular,
}

-- Every row of the reply has the status, and there are at most `lim` of them.
abbrev pub IsPageOf : String → ℕ → Reply (List WallpaperRow) → Type 0
IsPageOf status lim (done rows) = All (λ row. row.status ≡ status) rows × (length rows ≤ lim)
IsPageOf status lim (failed e) = Unit

All-map_row :
    (status : String) (ws : List Wallpaper)
    → All (λ w. w.status ≡ status) ws
    → All (λ row. row.status ≡ status) (map to_row ws)
All-map_row status [] h = tt
All-map_row status (w ∷ ws) h = (h.0, All-map_row status ws h.1)

length-map_row : (ws : List Wallpaper) → length (map to_row ws) ≡ length ws
length-map_row [] = refl
length-map_row (w ∷ ws) = omega (arith, length-map_row ws)

module _ (ilike : String → String → Bool) (ties : ℤ → ℤ → ℕ → ℕ) (status : String)
    (category query : Option String) (lim : ℕ) (d : Database) where
  page-IsPageOf :
      (rank : Wallpaper → ℕ) (le : Wallpaper → Wallpaper → Bool) (off : ℤ) (ws : List Wallpaper)
      → All (λ w. w.status ≡ status) ws
      → IsPageOf status lim (rows ilike (page (pos lim) off (order_by rank le ws)))
  unfolding page
  page-IsPageOf rank le (negsuc off) ws h = tt
  page-IsPageOf rank le (pos off) ws h = (
    All-map_row status _
        (All-take _ lim _ (All-drop _ off _ (order_by-All rank le (λ w. w.status ≡ status) ws h))),
    omega (
      arith,
      length-map_row (take lim (drop off (order_by rank le ws))),
      length-take lim (drop off (order_by rank le ws)),
    ),
  )

  selected-status :
      All (λ w. w.status ≡ status) (filter (selected ilike status category query) d.wallpapers)
  selected-status =
      All-filter (λ w. w.status ≡ status) _ (λ w h. ground (arith, eq_iff w.status status))
        d.wallpapers

  -- A page of the listing in either order holds only wallpapers of the status that it is asked for,
  -- whatever the other filters and the offset are, and no more of them than its limit.
  pub list_wallpapers-IsPageOf :
      (off : ℤ)
      → IsPageOf status lim
          (list_wallpapers_recent ilike ties status category query (pos lim) off d)
        × IsPageOf status lim
            (list_wallpapers_popular ilike ties status category query (pos lim) off d)
  unfolding list_wallpapers_recent list_wallpapers_popular
  list_wallpapers-IsPageOf off = (
    page-IsPageOf _ (newer ilike) off _ selected-status,
    page-IsPageOf _ (more_popular ilike) off _ selected-status,
  )
