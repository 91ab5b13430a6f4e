-- ===== src/Service/Favorite/Laws.antt =====
-- What `Toggle` answers and stores.
use screenspace.Base.{
  any-append, ℕ, suc, ◌≡◌, refl, Bool, true, false, not, ◌&&◌, List, [], ◌∷◌, ◌++◌, ◌==◌, any,
  filter, if◌then◌else◌, arith, Bool-cases, inl, inr,
}
use screenspace.Db.Models.{Favorite, Database, done}
use screenspace.Db.Users.{user_id_is}
use screenspace.Db.Wallpapers.{wallpaper_id_is}
use screenspace.Db.Favorites.{
  favorite_is, check_favorite, insert_favorite, delete_favorite, new_favorite,
}
use screenspace.Server.Env.{Env}
use screenspace.Server.World.{World}
use screenspace.Server.Exec.{ok, ◌>>=◌, read, write}
use screenspace.Service.Favorite.{toggle, add_favorite, remove_favorite}

-- The pair is among the favorites.
abbrev pub is_favorite : ℕ → ℕ → Database → Bool
is_favorite user_id wallpaper_id d = any (favorite_is user_id wallpaper_id) d.favorites

-- Both rows that a favorite refers to are there.
abbrev pub can_favorite : ℕ → ℕ → Database → Bool
can_favorite user_id wallpaper_id d =
    any (user_id_is user_id) d.users && any (wallpaper_id_is wallpaper_id) d.wallpapers

-- After the pair is deleted it is gone, and every other pair is as it was.
any-delete :
    (u p v q : ℕ) (fs : List Favorite)
    → any (favorite_is v q) (filter (λ f. not (favorite_is u p f)) fs)
      ≡ (if u == v && p == q then false else any (favorite_is v q) fs)
any-delete u p v q [] = ground arith
any-delete u p v q (f ∷ fs) = ground (arith, any-delete u p v q fs)

-- A new pair is appended.
insert-new :
    (now u p : ℕ) (d : Database)
    → is_favorite u p d ≡ false
    → can_favorite u p d ≡ true
    → insert_favorite now u p d
      ≡ (done tt, record d { favorites = d.favorites ++ new_favorite now u p ∷ [] })
unfolding insert_favorite
insert-new now u p d was_not can = rw (was_not, can) refl

-- After it is appended it is there, and every other pair is as it was.
any-insert :
    (now u p : ℕ) (d : Database)
    → is_favorite u p d ≡ false
    → (v q : ℕ)
    → any (favorite_is v q) (d.favorites ++ new_favorite now u p ∷ [])
      ≡ (if u == v && p == q then true else any (favorite_is v q) d.favorites)
any-insert now u p d was_not v q =
    rw (any-append (favorite_is v q) d.favorites (new_favorite now u p ∷ [])) (ground arith)

module _ (env : Env) (user_id wallpaper_id : ℕ) (w : World) (up : env.db_up w.calls ≡ true)
    (up' : env.db_up (suc w.calls) ≡ true) where
  -- While the database can be reached, and the user and the wallpaper are there, `Toggle` answers
  -- whether the wallpaper was no favorite before, makes it one exactly then, and leaves the other
  -- favorites of every user as they were.
  pub toggle_lem :
      can_favorite user_id wallpaper_id w.db ≡ true
      → ((toggle env user_id wallpaper_id w).0 ≡ ok (not (is_favorite user_id wallpaper_id w.db)))
        × ((v q : ℕ)
            → is_favorite v q (toggle env user_id wallpaper_id w).1.db ≡ (
                if user_id == v && wallpaper_id == q
                then not (is_favorite user_id wallpaper_id w.db)
                else is_favorite v q w.db))
  unfolding toggle add_favorite remove_favorite ◌>>=◌ read write check_favorite delete_favorite
  toggle_lem can = elim (Bool-cases (is_favorite user_id wallpaper_id w.db)) [
    | inl was ↦
        rw (up, was) (rw up' (refl, λ v q. any-delete user_id wallpaper_id v q w.db.favorites))
    | inr was_not ↦
        rw (up, was_not)
          (rw (up', insert-new _ user_id wallpaper_id w.db was_not can)
            (refl, any-insert _ user_id wallpaper_id w.db was_not))
  ]
