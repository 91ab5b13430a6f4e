-- ===== src/Db/Wallpapers/Laws.antt =====
-- What an UPDATE of one wallpaper does to the lookup of any.
use screenspace.Base.{
  ℕ, ◌≡◌, refl, Option, none, some, List, [], ◌∷◌, arith, ◌==◌, ==_refl, if◌then◌else◌, find,
  map_if, String, ◌++◌,
}
use screenspace.Db.Models.{Wallpaper, Database}
use screenspace.Db.Wallpapers.{
  wallpaper_id_is, find_wallpaper, update_wallpaper, create_wallpaper, new_wallpaper,
}

-- The row of `j` after an UPDATE of the row of `id` by `f`.
abbrev pub updated : ℕ → ℕ → (Wallpaper → Wallpaper) → Option Wallpaper → Option Wallpaper
updated id j f none = none
updated id j f (some w) = some (if j == id then f w else w)

module _ (id : ℕ) (f : Wallpaper → Wallpaper) (keeps_id : (w : Wallpaper) → (f w).id ≡ w.id) where
  pub find-map_if :
      (j : ℕ) (ws : List Wallpaper)
      → find (wallpaper_id_is j) (map_if (wallpaper_id_is id) f ws)
        ≡ updated id j f (find (wallpaper_id_is j) ws)
  find-map_if j [] = refl
  find-map_if j (w ∷ ws) = ground (arith, find-map_if j ws, keeps_id w)

  pub find-update_wallpaper :
      (j : ℕ) (db : Database)
      → find_wallpaper j (update_wallpaper id f db) ≡ updated id j f (find_wallpaper j db)
  unfolding update_wallpaper
  find-update_wallpaper j db = find-map_if j db.wallpapers

module _ (id : ℕ) (f : Wallpaper → Wallpaper) (keeps_id : (w : Wallpaper) → (f w).id ≡ w.id)
    {v : Wallpaper} (ws : List Wallpaper) (found : find (wallpaper_id_is id) ws ≡ some v) where
  -- The row that an UPDATE selects, after it.
  pub find-map_if_self : find (wallpaper_id_is id) (map_if (wallpaper_id_is id) f ws) ≡ some (f v)
  find-map_if_self = rw (find-map_if id f keeps_id id ws) (rw found (rw (==_refl id)))

-- A row that is found has the id that was looked for.
find-id :
    (id : ℕ) (ws : List Wallpaper) (w : Wallpaper)
    → find (wallpaper_id_is id) ws ≡ some w
    → w.id ≡ id
find-id id [] w h = ground arith
find-id id (x ∷ ws) w h = ground (arith, find-id id ws w)

pub find_wallpaper-id :
    (id : ℕ) (db : Database) (w : Wallpaper) → find_wallpaper id db ≡ some w → w.id ≡ id
find_wallpaper-id id db w h = find-id id db.wallpapers w h

find-append_some :
    (id : ℕ) (ws vs : List Wallpaper) (w : Wallpaper)
    → find (wallpaper_id_is id) ws ≡ some w
    → find (wallpaper_id_is id) (ws ++ vs) ≡ some w
find-append_some id [] vs w h = ground arith
find-append_some id (x ∷ ws) vs w h = ground (arith, find-append_some id ws vs w)

-- An INSERT changes no row that was there.
pub find-create_wallpaper :
    (j id now : ℕ) (title : String) (uploader : ℕ) (key : String) (category : Option String)
    (db : Database) (w : Wallpaper)
    → find_wallpaper j db ≡ some w
    → find_wallpaper j (create_wallpaper id now title uploader key category db).1 ≡ some w
unfolding create_wallpaper
find-create_wallpaper j id now title uploader key category db w h = ground (
  arith,
  find-append_some j db.wallpapers (new_wallpaper id now title uploader key category ∷ []) w h,
)
