-- ===== src/Db/Wallpapers/Statuses.antt =====
-- How the statuses of all wallpapers change together.
use screenspace.Base.{ℕ, String, ◌≡◌, refl, some, ◌==◌, ==_iff, Bool-cases, inl, inr}
use screenspace.Db.Models.{Wallpaper, Database}
use screenspace.Db.Wallpapers.{find_wallpaper, update_wallpaper}
use screenspace.Db.Wallpapers.Laws.{find-update_wallpaper}

module _ (P : String → String → Type 0) where
  -- Every wallpaper is still there, with its uploader, and its status stands in the relation to the
  -- one before.
  abbrev pub Rows : Database → Database → Type 0
  Rows d d' =
      (id : ℕ) (w : Wallpaper)
      → find_wallpaper id d ≡ some w
      → (w' : Wallpaper) × (find_wallpaper id d' ≡ some w')
        × (w'.uploader_id ≡ w.uploader_id)
        × P w.status w'.status

  module _ (same : (s : String) → P s s) where
    pub Rows-refl : (d : Database) → Rows d d
    Rows-refl d id w h = (w, h, refl, same w.status)

    -- An UPDATE of one row.
    pub update-Rows :
        (d : Database) (id : ℕ) (f : Wallpaper → Wallpaper)
        → ((w : Wallpaper) → (f w).id ≡ w.id)
        → ((w : Wallpaper) → (f w).uploader_id ≡ w.uploader_id)
        → ((w : Wallpaper) → find_wallpaper id d ≡ some w → P w.status (f w).status)
        → Rows d (update_wallpaper id f d)
    update-Rows d id f same_id same_uploader step j w h = elim (Bool-cases (j == id)) [
      | inl e ↦ (
        f w,
        rw (find-update_wallpaper id f same_id j d) (rw h (rw e)),
        same_uploader w,
        step w (rw ((==_iff j id).0 e) at h),
      )
      | inr e ↦ (w, rw (find-update_wallpaper id f same_id j d) (rw h (rw e)), refl, same w.status)
    ]
