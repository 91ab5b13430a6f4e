-- ===== src/Db/Wallpapers/Sorted.antt =====
-- The order of the public listings.
use screenspace.Base.{
  ℕ, zero, suc, String, ◌≡◌, refl, ◌==◌, Bool, true, false, Option, List, [], ◌∷◌, All, All-take,
  take, drop, filter, map, pos, ℤ, leb, ltb, arith, if◌then◌else◌,
}
use screenspace.Db.Models.{Wallpaper, WallpaperRow, Database, Reply, done, page}
use screenspace.Db.Order.{order_by, IsOrdered, order_by-IsOrdered}
use screenspace.Db.Wallpapers.{
  selected, newer, more_popular, to_row, list_wallpapers_recent, list_wallpapers_popular,
}

module _ {A : Type 0} (le : A → A → Bool) where
  drop-IsOrdered : (n : ℕ) (xs : List A) → IsOrdered le xs → IsOrdered le (drop n xs)
  drop-IsOrdered zero xs h = h
  drop-IsOrdered (suc n) [] h = tt
  drop-IsOrdered (suc n) (x ∷ xs) h = drop-IsOrdered n xs h.1

  take-IsOrdered : (n : ℕ) (xs : List A) → IsOrdered le xs → IsOrdered le (take n xs)
  take-IsOrdered zero xs h = tt
  take-IsOrdered (suc n) [] h = tt
  take-IsOrdered (suc n) (x ∷ xs) h =
      (All-take (λ y. le x y ≡ true) n xs h.0, take-IsOrdered n xs h.1)

-- The later row first.
abbrev pub newest_first : WallpaperRow → WallpaperRow → Bool
newest_first v w = leb w.created_at v.created_at

-- The row with more downloads first, and the later one of those with as many.
abbrev pub most_downloads_first : WallpaperRow → WallpaperRow → Bool
most_downloads_first v w =
    if v.download_count == w.download_count
    then leb w.created_at v.created_at
    else ltb w.download_count v.download_count

-- The query succeeds, and each row may stand before every later one.
pub record IsSorted (le : WallpaperRow → WallpaperRow → Bool) (reply : Reply (List WallpaperRow))
    : Type 0 where
  pub listed : List WallpaperRow
  pub answered : reply ≡ done listed
  pub sorted : IsOrdered le listed

module _ (le : WallpaperRow → WallpaperRow → Bool) where
  map-All :
      (v : Wallpaper) (ws : List Wallpaper)
      → All (λ w. le (to_row v) (to_row w) ≡ true) ws
      → All (λ row. le (to_row v) row ≡ true) (map to_row ws)
  map-All v [] h = tt
  map-All v (w ∷ ws) h = (h.0, map-All v ws h.1)

  map-IsOrdered :
      (ws : List Wallpaper)
      → IsOrdered (λ v w. le (to_row v) (to_row w)) ws
      → IsOrdered le (map to_row ws)
  map-IsOrdered [] h = tt
  map-IsOrdered (w ∷ ws) h = (map-All w ws h.0, map-IsOrdered ws h.1)

  page-IsOrdered :
      ((v w : WallpaperRow) → le v w ≡ false → le w v ≡ true)
      → ((u v w : WallpaperRow) → le u v ≡ true → le v w ≡ true → le u w ≡ true)
      → (rank : Wallpaper → ℕ) (lim off : ℕ) (ws : List Wallpaper)
      → IsOrdered le
          (map to_row (take lim (drop off (order_by rank (λ v w. le (to_row v) (to_row w)) ws))))
  page-IsOrdered total trans rank lim off ws =
      let by : (Wallpaper → Wallpaper → Bool) = λ v w. le (to_row v) (to_row w) in
      map-IsOrdered _ (
        take-IsOrdered by lim _ (
          drop-IsOrdered by off _ (
            order_by-IsOrdered rank by (λ v w. total (to_row v) (to_row w))
              (λ u v w. trans (to_row u) (to_row v) (to_row w)) ws)))

newest_first_total : (v w : WallpaperRow) → newest_first v w ≡ false → newest_first w v ≡ true
newest_first_total v w h = ground (arith, h)

newest_first_trans :
    (u v w : WallpaperRow)
    → newest_first u v ≡ true
    → newest_first v w ≡ true
    → newest_first u w ≡ true
newest_first_trans u v w h k = ground (arith, h, k)

most_downloads_first_total :
    (v w : WallpaperRow) → most_downloads_first v w ≡ false → most_downloads_first w v ≡ true
most_downloads_first_total v w h = ground (arith, h)

most_downloads_first_trans :
    (u v w : WallpaperRow)
    → most_downloads_first u v ≡ true
    → most_downloads_first v w ≡ true
    → most_downloads_first u w ≡ true
most_downloads_first_trans u v w h k = ground (arith, h, k)

module _ (ilike : String → String → Bool) (ties : ℤ → ℤ → ℕ → ℕ) where
  -- A page of the recent listing, of any limit and offset that are not negative, has its rows from
  -- the newest to the oldest; a page of the popular listing has them from the one with the most
  -- downloads to the one with the fewest, and the newest first among those with as many;
  -- in whatever order PostgreSQL takes those that are still equal.
  pub list_wallpapers-IsSorted :
      (status : String) (category query : Option String) (lim off : ℕ) (d : Database)
      → IsSorted newest_first
          (list_wallpapers_recent ilike ties status category query (pos lim) (pos off) d)
        × IsSorted most_downloads_first
            (list_wallpapers_popular ilike ties status category query (pos lim) (pos off) d)
  unfolding list_wallpapers_recent list_wallpapers_popular page
  list_wallpapers-IsSorted status category query lim off d =
      let ws = filter (selected ilike status category query) d.wallpapers in
      let by_ties : (Wallpaper → ℕ) = λ w. ties (pos lim) (pos off) w.id in
      (
        record {
          listed = map to_row (take lim (drop off (order_by by_ties (newer ilike) ws)));
          answered = refl;
          sorted =
              page-IsOrdered newest_first newest_first_total newest_first_trans by_ties lim off ws;
        },
        record {
          listed = map to_row (take lim (drop off (order_by by_ties (more_popular ilike) ws)));
          answered = refl;
          sorted =
              page-IsOrdered most_downloads_first most_downloads_first_total
                most_downloads_first_trans by_ties lim off ws;
        },
      )
