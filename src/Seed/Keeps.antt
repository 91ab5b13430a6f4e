-- ===== src/Seed/Keeps.antt =====
-- What the seed command keeps, when its three INSERTs keep it.
use screenspace.Base.{ℕ, String, ◌≡◌, refl, ◌∙◌, List, [], ◌∷◌}
use screenspace.Config.{Config}
use screenspace.Db.Models.{Wallpaper, Database, Reply, done, failed, DbError}
use screenspace.Db.Users.{create_user}
use screenspace.Server.Env.{Env, ProbeResult}
use screenspace.Server.World.{World}
use screenspace.Server.Exec.{Exec, Result, ok, err, panicked, write}
use screenspace.Server.Exec.Keeps.{
  IsPreorder, Keeps, Keeps-write, Keeps-bind, Keeps-pure, Keeps-throw, keeps_rules,
}
use screenspace.Server.Exec.From.{Same, Same-order, Keeps-of-Same}
use screenspace.Service.Auth.{hash_password}
use screenspace.Service.Wallpaper.{upload}
use screenspace.Service.Wallpaper.Video.{upload-Same}
use screenspace.Seed.Videos.{SeedVideo}
use screenspace.Seed.Queries.{insert_wallpaper, insert_favorite_once}
use screenspace.Seed.Footage.{Tools, download_file, generate_video, or_generated, fetch}
use screenspace.Seed.Run.{
  found_or, attempted, attempt, insert_user, seed_user, publish_seed, produce, insert_video,
  seed_wallpaper, add_favorite, seed_all, favor_all, run,
}

-- The relation holds across the INSERTs.
pub record SeedSteps (R : Database → Database → Type 0) : Type 0 where
  pub registered :
      (id now : ℕ) (email hash role : String) (d : Database)
      → R d (create_user id now email hash role d).1
  pub inserted : (w : Wallpaper) (d : Database) → R d (insert_wallpaper w d).1
  pub favored : (now u p : ℕ) (d : Database) → R d (insert_favorite_once now u p d).1

attempted-R :
    (R : Database → Database → Type 0) {A : Type 0} (r : Result A) (d : Database) (w : World)
    → R d w.db
    → R d (attempted r w).1.db
unfolding attempted
attempted-R R (ok a) d w h = h
attempted-R R (err e) d w h = h
attempted-R R panicked d w h = h

module _ {R : Database → Database → Type 0} where
  attempt-Keeps : {A : Type 0} (m : Exec A) → Keeps R m → Keeps R (attempt m)
  unfolding attempt
  attempt-Keeps m k = record { at = λ w. attempted-R R (m w).0 w.db (m w).1 (k.at w) }

  found_or-Keeps :
      {A B : Type 0} (order : IsPreorder R) (f : A → Exec B) (missing : Exec B) (label : String)
      (r : Reply A)
      → ((a : A) → Keeps R (f a))
      → Keeps R missing
      → Keeps R (found_or f missing label r)
  found_or-Keeps order f missing label (done a) kf km = kf a
  found_or-Keeps order f missing label (failed DbError.no_rows) kf km = km
  found_or-Keeps order f missing label (failed DbError.unique_violation) kf km = Keeps-throw order _
  found_or-Keeps order f missing label (failed DbError.foreign_key_violation) kf km =
      Keeps-throw order _
  found_or-Keeps order f missing label (failed DbError.out_of_range) kf km = Keeps-throw order _
  found_or-Keeps order f missing label (failed DbError.unavailable) kf km = Keeps-throw order _

-- The footage leaves the tables alone.
module _ (tools : Tools) where
  download_file-Same : (url path : String) → Keeps Same (download_file tools url path)
  unfolding download_file
  download_file-Same url path = search (keeps_rules, Same-order) depth 14

  generate_video-Same : (v : SeedVideo) (path : String) → Keeps Same (generate_video tools v path)
  unfolding generate_video
  generate_video-Same v path = search (keeps_rules, Same-order) depth 14

  or_generated-db :
      (v : SeedVideo) (path : String) (r : Result (Unit {0})) (w : World)
      → w.db ≡ (or_generated tools v path r w).1.db
  or_generated-db v path (ok u) w = refl
  or_generated-db v path (err e) w = (generate_video-Same v path).at w
  or_generated-db v path panicked w = refl

  fetch-Same : (v : SeedVideo) (path : String) → Keeps Same (fetch tools v path)
  unfolding fetch
  fetch-Same v path = record {
    at = λ w.
        let d = download_file tools v.url path w in
        (download_file-Same v.url path).at w ∙ or_generated-db v path d.0 d.1;
  }

module _ (env : Env) (tools : Tools) (cfg : Config) {R : Database → Database → Type 0}
    (order : IsPreorder R) (steps : SeedSteps R) where
  registered-Keeps :
      (email hash role : String)
      → Keeps R (write env (λ n. create_user (env.new_uuid n) (env.db_now n) email hash role))
  registered-Keeps email hash role =
      Keeps-write order env _
        λ n d. steps.registered (env.new_uuid n) (env.db_now n) email hash role d

  inserted-Keeps : (row : ℕ → Wallpaper) → Keeps R (write env (λ n. insert_wallpaper (row n)))
  inserted-Keeps row = Keeps-write order env _ λ n d. steps.inserted (row n) d

  favored-Keeps : (u p : ℕ) → Keeps R (write env (λ n. insert_favorite_once (env.db_now n) u p))
  favored-Keeps u p = Keeps-write order env _ λ n d. steps.favored (env.db_now n) u p d

  insert_user-Keeps :
      (email password role : String) → Keeps R (insert_user env cfg email password role)
  unfolding insert_user hash_password
  insert_user-Keeps email password role = search (keeps_rules, order, registered-Keeps) depth 14

  seed_user-Keeps : (email password role : String) → Keeps R (seed_user env cfg email password role)
  unfolding seed_user
  seed_user-Keeps email password role =
      search (keeps_rules, order, found_or-Keeps, insert_user-Keeps) depth 14

  upload-R : (key t a b : String) → Keeps R (upload env key t a b)
  upload-R key t a b = Keeps-of-Same order _ (upload-Same env key t a b)

  fetch-R : (v : SeedVideo) (path : String) → Keeps R (fetch tools v path)
  fetch-R v path = Keeps-of-Same order _ (fetch-Same tools v path)

  publish_seed-Keeps :
      (v : SeedVideo) (id : ℕ) (info : ProbeResult) → Keeps R (publish_seed env tools v id info)
  unfolding publish_seed
  publish_seed-Keeps v id info = search (keeps_rules, order, upload-R, inserted-Keeps) depth 20

  produce-Keeps : (v : SeedVideo) (id : ℕ) (dir : String) → Keeps R (produce env tools v id dir)
  unfolding produce
  produce-Keeps v id dir = search (keeps_rules, order, fetch-R, publish_seed-Keeps) depth 20

  insert_video-Keeps : (v : SeedVideo) (id : ℕ) → Keeps R (insert_video env tools v id)
  unfolding insert_video
  insert_video-Keeps v id = search (keeps_rules, order, produce-Keeps, refl) depth 14

  seed_wallpaper-Keeps : (v : SeedVideo) (id : ℕ) → Keeps R (seed_wallpaper env tools v id)
  unfolding seed_wallpaper
  seed_wallpaper-Keeps v id =
      search (keeps_rules, order, found_or-Keeps, insert_video-Keeps) depth 14

  seed_all-Keeps : (vs : List SeedVideo) (id : ℕ) → Keeps R (seed_all env tools vs id)
  unfolding seed_all
  seed_all-Keeps [] id = Keeps-pure order []
  seed_all-Keeps (v ∷ vs) id =
      search (keeps_rules, order, attempt-Keeps, seed_wallpaper-Keeps, seed_all-Keeps vs) depth 14

  add_favorite-Keeps : (u p : ℕ) → Keeps R (add_favorite env u p)
  unfolding add_favorite
  add_favorite-Keeps u p = search (keeps_rules, order, favored-Keeps) depth 14

  favor_all-Keeps : (u : ℕ) (ids : List ℕ) → Keeps R (favor_all env u ids)
  unfolding favor_all
  favor_all-Keeps u [] = Keeps-pure order tt
  favor_all-Keeps u (id ∷ ids) =
      Keeps-bind order _ _ (attempt-Keeps _ (add_favorite-Keeps u id)) λ _. favor_all-Keeps u ids

  -- Whatever fails on the way.
  pub run-Keeps : (vs : List SeedVideo) (email : String) → Keeps R (run env tools cfg vs email)
  unfolding run
  run-Keeps vs email =
      search (keeps_rules, order, seed_user-Keeps, seed_all-Keeps, favor_all-Keeps) depth 14
