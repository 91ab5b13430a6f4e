-- ===== src/Seed/Settled.antt =====
-- A database that the seed command leaves alone.
use screenspace.Base.{
  ℕ, suc, String, ◌≡◌, refl, true, Option, none, some, List, [], ◌∷◌, take, find, any, All,
}
use screenspace.Types.{role_user, role_admin}
use screenspace.Config.{Config}
use screenspace.Db.Models.{User, Wallpaper, Database}
use screenspace.Db.Users.{user_email_is, get_user_by_email}
use screenspace.Db.Favorites.{favorite_is}
use screenspace.Server.Env.{Env}
use screenspace.Server.World.{World}
use screenspace.Server.Exec.{Exec, ok, read, write, ◌>>=◌}
use screenspace.Seed.Videos.{SeedVideo}
use screenspace.Seed.Queries.{has_title, wallpaper_by_title, insert_favorite_once}
use screenspace.Seed.Footage.{Tools}
use screenspace.Seed.Run.{
  attempted, attempt, seed_user, seed_wallpaper, add_favorite, with_some, seed_all, favor_all,
  user_email, run,
}

abbrev pub id_of : Option Wallpaper → Option ℕ
id_of none = none
id_of (some w) = some w.id

-- The wallpapers with the titles of the videos.
abbrev pub ids_in : Database → List SeedVideo → List ℕ
ids_in d [] = []
ids_in d (v ∷ vs) = with_some (id_of (find (has_title v.title) d.wallpapers)) (ids_in d vs)

abbrev pub HasTitle : Database → SeedVideo → Type 0
HasTitle d v = (w : Wallpaper) × (find (has_title v.title) d.wallpapers ≡ some w)

-- Both accounts, every title, and the favorites of the user are there.
pub record IsSettled (vs : List SeedVideo) (admin_email : String) (d : Database) : Type 0 where
  pub admin : User
  pub user : User
  pub has_admin : find (user_email_is admin_email) d.users ≡ some admin
  pub has_user : find (user_email_is user_email) d.users ≡ some user
  pub titles : All (HasTitle d) vs
  pub favorites : All (λ id. any (favorite_is user.id id) d.favorites ≡ true) (take 3 (ids_in d vs))

-- The action returns, and has changed no more than the number of calls.
abbrev pub Reads : {A : Type 0} → Exec A → World → A → Type 0
Reads m w a = (n : ℕ) × (m w ≡ (ok a, record w { calls = n }))

module _ {A B : Type 0} where
  Reads-bind :
      (m : Exec A) (f : A → Exec B) (w : World) (a : A) (b : B)
      → Reads m w a
      → ((n : ℕ) → Reads (f a) (record w { calls = n }) b)
      → Reads (m >>= f) w b
  unfolding ◌>>=◌
  Reads-bind m f w a b (n, first) k = let (n', second) = k n in (n', rw first second)

Reads-attempt :
    {A : Type 0} (m : Exec A) (w : World) (a : A) → Reads m w a → Reads (attempt m) w (some a)
unfolding attempt attempted
Reads-attempt m w a (n, h) = (n, rw h)

module _ (env : Env) (tools : Tools) (up : (n : ℕ) → env.db_up n ≡ true) where
  seed_user-Reads :
      (cfg : Config) (email password role : String) (w : World) (u : User)
      → find (user_email_is email) w.db.users ≡ some u
      → Reads (seed_user env cfg email password role) w u.id
  unfolding seed_user read get_user_by_email ◌>>=◌
  seed_user-Reads cfg email password role w u found = (suc w.calls, rw (up w.calls) (rw found))

  seed_wallpaper-Reads :
      (v : SeedVideo) (uploader : ℕ) (w : World) (x : Wallpaper)
      → find (has_title v.title) w.db.wallpapers ≡ some x
      → Reads (seed_wallpaper env tools v uploader) w x.id
  unfolding seed_wallpaper read wallpaper_by_title ◌>>=◌
  seed_wallpaper-Reads v uploader w x found = (suc w.calls, rw (up w.calls) (rw found))

  add_favorite-Reads :
      (user id : ℕ) (w : World)
      → any (favorite_is user id) w.db.favorites ≡ true
      → Reads (add_favorite env user id) w tt
  unfolding add_favorite write insert_favorite_once ◌>>=◌
  add_favorite-Reads user id w old = (suc w.calls, rw (up w.calls) (rw old))

  seed_all-Reads :
      (vs : List SeedVideo) (uploader : ℕ) (w : World)
      → All (HasTitle w.db) vs
      → Reads (seed_all env tools vs uploader) w (ids_in w.db vs)
  unfolding seed_all
  seed_all-Reads [] uploader w h = (w.calls, refl)
  seed_all-Reads (v ∷ vs) uploader w ((x, found), rest) = rw found (
      Reads-bind _ _ w (some x.id) _
        (Reads-attempt _ w x.id (seed_wallpaper-Reads v uploader w x found))
        λ n.
          Reads-bind _ _ (record w { calls = n }) (ids_in w.db vs) _
            (seed_all-Reads vs uploader (record w { calls = n }) rest) λ n'. (n', refl))

  favor_all-Reads :
      (user : ℕ) (ids : List ℕ) (w : World)
      → All (λ id. any (favorite_is user id) w.db.favorites ≡ true) ids
      → Reads (favor_all env user ids) w tt
  unfolding favor_all
  favor_all-Reads user [] w h = (w.calls, refl)
  favor_all-Reads user (id ∷ ids) w h =
      Reads-bind _ _ w (some tt) tt (Reads-attempt _ w tt (add_favorite-Reads user id w h.0))
        λ n. favor_all-Reads user ids (record w { calls = n }) h.1

  -- While the database can be reached, the seed command does nothing to a database that has both
  -- accounts, every title and the favorites of the user: it succeeds, and the tables, the store, the
  -- temporary files, the caches and the limiters are as they were.
  pub run-Reads :
      (cfg : Config) (vs : List SeedVideo) (admin_email : String) (w : World)
      → IsSettled vs admin_email w.db
      → Reads (run env tools cfg vs admin_email) w tt
  unfolding run
  run-Reads cfg vs admin_email w s =
      Reads-bind _ _ w s.admin.id tt
        (seed_user-Reads cfg admin_email "password" role_admin w s.admin s.has_admin)
        λ n.
          Reads-bind _ _ (record w { calls = n }) s.user.id tt
            (seed_user-Reads cfg user_email "password" role_user (record w { calls = n }) s.user
              s.has_user)
            λ n.
              Reads-bind _ _ (record w { calls = n }) (ids_in w.db vs) tt
                (seed_all-Reads vs s.admin.id (record w { calls = n }) s.titles)
                λ n.
                  favor_all-Reads s.user.id (take 3 (ids_in w.db vs)) (record w { calls = n })
                    s.favorites
