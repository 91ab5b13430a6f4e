-- ===== src/Routes/Untouched.antt =====
-- Which queries leave the table of the users, and that of the wallpapers, alone.
use screenspace.Base.{ℕ, String, ◌≡◌, Option, arith}
use screenspace.Db.Models.{Database}
use screenspace.Db.Users.{create_user}
use screenspace.Db.Wallpapers.{
  create_wallpaper, update_wallpaper, increment_download_count, update_wallpaper_after_finalize,
  FinalizeParams,
}
use screenspace.Db.Favorites.{insert_favorite}
use screenspace.Db.Reports.{create_report}

pub users-create_wallpaper :
    (id now : ℕ) (title : String) (uploader : ℕ) (key : String) (category : Option String)
    (d : Database)
    → (create_wallpaper id now title uploader key category d).1.users ≡ d.users
unfolding create_wallpaper
users-create_wallpaper id now title uploader key category d = ground arith

pub users-increment_download_count :
    (id : ℕ) (d : Database) → (increment_download_count id d).1.users ≡ d.users
unfolding increment_download_count update_wallpaper
users-increment_download_count id d = ground arith

pub users-update_wallpaper_after_finalize :
    (now : ℕ) (p : FinalizeParams) (id : ℕ) (d : Database)
    → (update_wallpaper_after_finalize now p id d).1.users ≡ d.users
unfolding update_wallpaper_after_finalize update_wallpaper
users-update_wallpaper_after_finalize now p id d = ground arith

pub users-insert_favorite :
    (now u p : ℕ) (d : Database) → (insert_favorite now u p d).1.users ≡ d.users
unfolding insert_favorite
users-insert_favorite now u p d = ground arith

pub users-create_report :
    (id now p u : ℕ) (reason : String) (d : Database)
    → (create_report id now p u reason d).1.users ≡ d.users
unfolding create_report
users-create_report id now p u reason d = ground arith

pub wallpapers-create_user :
    (id now : ℕ) (email hash role : String) (d : Database)
    → (create_user id now email hash role d).1.wallpapers ≡ d.wallpapers
unfolding create_user
wallpapers-create_user id now email hash role d = ground arith

pub wallpapers-insert_favorite :
    (now u p : ℕ) (d : Database) → (insert_favorite now u p d).1.wallpapers ≡ d.wallpapers
unfolding insert_favorite
wallpapers-insert_favorite now u p d = ground arith

pub wallpapers-create_report :
    (id now p u : ℕ) (reason : String) (d : Database)
    → (create_report id now p u reason d).1.wallpapers ≡ d.wallpapers
unfolding create_report
wallpapers-create_report id now p u reason d = ground arith
