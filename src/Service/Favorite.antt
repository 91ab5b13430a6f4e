-- ===== src/Service/Favorite.antt =====
-- server/internal/service/favorite.go: `FavoriteService`.
pub mod Laws
use screenspace.Base.{ℕ, Bool, true, false, List, ℤ, int32, if◌then◌else◌}
use screenspace.Apperr.{internal}
use screenspace.Db.Models.{WallpaperRow}
use screenspace.Db.Favorites.{
  check_favorite, insert_favorite, delete_favorite, list_favorites_by_user, count_favorites_by_user,
}
use screenspace.Server.Env.{Env}
use screenspace.Server.Exec.{Exec, pure, ◌>>=◌, ◌>>◌, write, read, reply_or}

module _ (env : Env) where
  -- The two ends of `Toggle`.
  unfoldable pub remove_favorite : ℕ → ℕ → Exec Bool
  remove_favorite user_id wallpaper_id = do
    deleted ← write env (λ n. delete_favorite user_id wallpaper_id)
    reply_or deleted (internal "delete favorite")
    pure false

  unfoldable pub add_favorite : ℕ → ℕ → Exec Bool
  add_favorite user_id wallpaper_id = do
    inserted ← write env (λ n. insert_favorite (env.db_now n) user_id wallpaper_id)
    reply_or inserted (internal "insert favorite")
    pure true

  -- `Toggle`: whether the wallpaper is now a favorite.
  unfoldable pub toggle : ℕ → ℕ → Exec Bool
  toggle user_id wallpaper_id = do
    checked ← read env (check_favorite user_id wallpaper_id)
    exists ← reply_or checked (internal "check favorite")
    if exists then remove_favorite user_id wallpaper_id else add_favorite user_id wallpaper_id

  -- `ListByUser`
  unfoldable pub list_by_user : ℕ → ℤ → ℤ → Exec (List WallpaperRow × ℕ)
  list_by_user user_id limit offset = do
    counted ← read env (count_favorites_by_user user_id)
    total ← reply_or counted (internal "count favorites")
    listed ← read env (list_favorites_by_user env.tie_rank user_id (int32 limit) (int32 offset))
    rows ← reply_or listed (internal "list favorites")
    pure (rows, total)
