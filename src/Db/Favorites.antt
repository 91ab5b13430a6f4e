-- ===== src/Db/Favorites.antt =====
-- server/db/generated/favorite.sql.go.
use screenspace.Base.{
  ℕ, Bool, not, ◌&&◌, none, some, List, [], ◌∷◌, ◌++◌, ℤ, ◌==◌, if◌then◌else◌, any, filter, leb,
  length,
}
use screenspace.Db.Models.{
  Favorite, WallpaperRow, Database, Reply, done, failed, unique_violation, foreign_key_violation,
  page,
}
use screenspace.Db.Order.{order_by}
use screenspace.Db.Users.{user_id_is}
use screenspace.Db.Wallpapers.{wallpaper_id_is, find_wallpaper, to_row}

abbrev pub favorite_is : ℕ → ℕ → Favorite → Bool
favorite_is user_id wallpaper_id f = f.user_id == user_id && f.wallpaper_id == wallpaper_id

-- `CheckFavorite`
unfoldable pub check_favorite : ℕ → ℕ → Database → Reply Bool
check_favorite user_id wallpaper_id db = done (any (favorite_is user_id wallpaper_id) db.favorites)

abbrev pub new_favorite : ℕ → ℕ → ℕ → Favorite
new_favorite now user_id wallpaper_id = record {
  user_id = user_id;
  wallpaper_id = wallpaper_id;
  created_at = now;
}

-- `InsertFavorite`: the pair is the key, and both parts refer to rows.
unfoldable pub insert_favorite : ℕ → ℕ → ℕ → Database → Reply (Unit {0}) × Database
insert_favorite now user_id wallpaper_id db =
    if any (favorite_is user_id wallpaper_id) db.favorites
    then (failed unique_violation, db)
    else if any (user_id_is user_id) db.users && any (wallpaper_id_is wallpaper_id) db.wallpapers
    then (
      done tt,
      record db { favorites = db.favorites ++ new_favorite now user_id wallpaper_id ∷ [] },
    )
    else (failed foreign_key_violation, db)

-- `DeleteFavorite`
unfoldable pub delete_favorite : ℕ → ℕ → Database → Reply (Unit {0}) × Database
delete_favorite user_id wallpaper_id db = (
  done tt,
  record db { favorites = filter (λ f. not (favorite_is user_id wallpaper_id f)) db.favorites },
)

abbrev pub favorite_of : ℕ → Favorite → Bool
favorite_of user_id f = f.user_id == user_id

-- ORDER BY f.created_at DESC
abbrev pub newer_favorite : Favorite → Favorite → Bool
newer_favorite f g = leb g.created_at f.created_at

-- JOIN wallpapers w ON w.id = f.wallpaper_id
unfoldable pub join_wallpapers : Database → List Favorite → List WallpaperRow
join_wallpapers db [] = []
join_wallpapers db (f ∷ fs) =
    let rest = join_wallpapers db fs in
    elim (find_wallpaper f.wallpaper_id db) [ none ↦ rest | some w ↦ to_row w ∷ rest ]

-- `ListFavoritesByUser`
unfoldable pub list_favorites_by_user :
    (ℤ → ℤ → ℕ → ℕ) → ℕ → ℤ → ℤ → Database → Reply (List WallpaperRow)
unfolding order_by page join_wallpapers
list_favorites_by_user ties user_id lim off db = page lim off (
    join_wallpapers db (
      order_by (λ f. ties lim off f.wallpaper_id) newer_favorite
        (filter (favorite_of user_id) db.favorites)))

-- `CountFavoritesByUser`
unfoldable pub count_favorites_by_user : ℕ → Database → Reply ℕ
count_favorites_by_user user_id db = done (length (filter (favorite_of user_id) db.favorites))
