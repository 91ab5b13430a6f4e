-- ===== src/Service/Wallpaper/Interleaved/Others.antt =====
-- The writes of other requests leave the status of every wallpaper.
use screenspace.Base.{ℕ, ◌≡◌, refl, any, ◌&&◌, leb, Bool-cases, inl, inr}
use screenspace.Db.Models.{Wallpaper, Database}
use screenspace.Db.Users.{create_user, set_banned, set_role}
use screenspace.Db.Wallpapers.{
  wallpaper_id_is, max_bigint, update_wallpaper, update_wallpaper_storage_key,
  update_wallpaper_metadata, increment_download_count,
}
use screenspace.Db.Wallpapers.Laws.{find-create_wallpaper}
use screenspace.Db.Wallpapers.Statuses.{Rows, update-Rows}
use screenspace.Db.Favorites.{insert_favorite, delete_favorite}
use screenspace.Db.Reports.{create_report, dismiss_report}
use screenspace.Routes.Untouched.{
  wallpapers-create_user, wallpapers-insert_favorite, wallpapers-create_report,
}
use screenspace.Service.Wallpaper.Interleaved.{
  OtherWrite, created, keyed, counted, edited, registered, banned, promoted, favorited, unfavorited,
  reported, dismissed,
}

-- Every wallpaper is still there, with its uploader and its status.
abbrev pub SameStatus : Database → Database → Type 0
SameStatus = Rows (λ s t. t ≡ s)

same_wallpapers : (d d' : Database) → d'.wallpapers ≡ d.wallpapers → SameStatus d d'
same_wallpapers d d' same id w h = (w, rw same h, refl, refl)

update-SameStatus :
    (d : Database) (id : ℕ) (f : Wallpaper → Wallpaper)
    → ((w : Wallpaper) → (f w).id ≡ w.id)
    → ((w : Wallpaper) → (f w).uploader_id ≡ w.uploader_id)
    → ((w : Wallpaper) → (f w).status ≡ w.status)
    → SameStatus d (update_wallpaper id f d)
update-SameStatus d id f same_id same_owner same_status =
    update-Rows (λ s t. t ≡ s) (λ s. refl) d id f same_id same_owner λ w h. same_status w

counted-SameStatus : (id : ℕ) (d : Database) → SameStatus d (increment_download_count id d).1
unfolding increment_download_count
counted-SameStatus id d =
    elim (Bool-cases
      (any (λ w. wallpaper_id_is id w && leb max_bigint w.download_count) d.wallpapers)) [
        | inl full ↦ rw full (same_wallpapers d d refl)
        | inr room ↦ rw room (update-SameStatus d id _ (λ w. refl) (λ w. refl) (λ w. refl))
      ]

pub OtherWrite-SameStatus : (d d' : Database) → OtherWrite d d' → SameStatus d d'
unfolding update_wallpaper_storage_key update_wallpaper_metadata set_banned set_role delete_favorite
    dismiss_report
OtherWrite-SameStatus d d' (created id now title uploader key category) =
    λ j w h. (w, find-create_wallpaper j id now title uploader key category d w h, refl, refl)
OtherWrite-SameStatus d d' (keyed now key id) =
    update-SameStatus d id _ (λ w. refl) (λ w. refl) (λ w. refl)
OtherWrite-SameStatus d d' (counted id) = counted-SameStatus id d
OtherWrite-SameStatus d d' (edited now title category tags id) =
    update-SameStatus d id _ (λ w. refl) (λ w. refl) (λ w. refl)
OtherWrite-SameStatus d d' (registered id now email hash role) =
    same_wallpapers d (create_user id now email hash role d).1
      (wallpapers-create_user id now email hash role d)
OtherWrite-SameStatus d d' (banned b id) = same_wallpapers d (set_banned b id d).1 refl
OtherWrite-SameStatus d d' (promoted role id) = same_wallpapers d (set_role role id d).1 refl
OtherWrite-SameStatus d d' (favorited now u p) =
    same_wallpapers d (insert_favorite now u p d).1 (wallpapers-insert_favorite now u p d)
OtherWrite-SameStatus d d' (unfavorited u p) = same_wallpapers d (delete_favorite u p d).1 refl
OtherWrite-SameStatus d d' (reported id now p u reason) =
    same_wallpapers d (create_report id now p u reason d).1
      (wallpapers-create_report id now p u reason d)
OtherWrite-SameStatus d d' (dismissed id) = same_wallpapers d (dismiss_report id d).1 refl
