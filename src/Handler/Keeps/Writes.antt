-- ===== src/Handler/Keeps/Writes.antt =====
-- The writes of the handlers, and the relations between the tables that they keep.
use screenspace.Base.{ℕ, String, Bool, Option, List}
use screenspace.Config.{Config}
use screenspace.Db.Models.{Database}
use screenspace.Db.Users.{create_user, set_banned, set_role}
use screenspace.Db.Wallpapers.{
  create_wallpaper, update_wallpaper_storage_key, update_wallpaper_metadata,
  increment_download_count,
}
use screenspace.Db.Favorites.{insert_favorite, delete_favorite}
use screenspace.Db.Reports.{create_report, dismiss_report}
use screenspace.Server.Env.{Env}
use screenspace.Server.Exec.{write}
use screenspace.Server.Exec.Keeps.{IsPreorder, Keeps, Keeps-write}
use screenspace.Service.Wallpaper.{finalize, approve, reject}

-- The relation holds across every query that the handlers of visitors and users write with, and
-- across `Finalize`.
pub record UserSteps (env : Env) (cfg : Config) (R : Database → Database → Type 0) : Type 0 where
  pub created :
      (id now : ℕ) (title : String) (uploader : ℕ) (key : String) (category : Option String)
      (d : Database)
      → R d (create_wallpaper id now title uploader key category d).1
  pub keyed :
      (now : ℕ) (key : String) (id : ℕ) (d : Database)
      → R d (update_wallpaper_storage_key now key id d).1
  pub counted : (id : ℕ) (d : Database) → R d (increment_download_count id d).1
  pub registered :
      (id now : ℕ) (email hash role : String) (d : Database)
      → R d (create_user id now email hash role d).1
  pub favorited : (now u p : ℕ) (d : Database) → R d (insert_favorite now u p d).1
  pub unfavorited : (u p : ℕ) (d : Database) → R d (delete_favorite u p d).1
  pub reported :
      (id now p u : ℕ) (reason : String) (d : Database) → R d (create_report id now p u reason d).1
  pub finalized : (id user_id : ℕ) → Keeps R (finalize env cfg id user_id)

-- The relation holds across every query that the handlers of admins write with, and across their two
-- steps of the review.
pub record AdminSteps (env : Env) (R : Database → Database → Type 0) : Type 0 where
  pub edited :
      (now : ℕ) (title : String) (category : Option String) (tags : List String) (id : ℕ)
      (d : Database)
      → R d (update_wallpaper_metadata now title category tags id d).1
  pub banned : (b : Bool) (id : ℕ) (d : Database) → R d (set_banned b id d).1
  pub promoted : (role : String) (id : ℕ) (d : Database) → R d (set_role role id d).1
  pub dismissed : (id : ℕ) (d : Database) → R d (dismiss_report id d).1
  pub approved : (id : ℕ) → Keeps R (approve env id)
  pub rejected : (id : ℕ) (reason : String) → Keeps R (reject env id reason)

pub record Steps (env : Env) (cfg : Config) (R : Database → Database → Type 0) : Type 0 where
  pub user : UserSteps env cfg R
  pub admin : AdminSteps env R

module _ (env : Env) (cfg : Config) {R : Database → Database → Type 0} (order : IsPreorder R)
    (s : UserSteps env cfg R) where
  pub created-Keeps :
      (title : String) (u : ℕ) (key : String) (category : Option String)
      → Keeps R
          (write env (λ n. create_wallpaper (env.new_uuid n) (env.db_now n) title u key category))
  created-Keeps title u key category =
      Keeps-write order env _
        λ n d. s.created (env.new_uuid n) (env.db_now n) title u key category d

  pub keyed-Keeps :
      (key : String) (id : ℕ)
      → Keeps R (write env (λ n. update_wallpaper_storage_key (env.db_now n) key id))
  keyed-Keeps key id = Keeps-write order env _ λ n d. s.keyed (env.db_now n) key id d

  pub counted-Keeps : (id : ℕ) → Keeps R (write env (λ n. increment_download_count id))
  counted-Keeps id = Keeps-write order env _ λ n d. s.counted id d

  pub registered-Keeps :
      (email hash role : String)
      → Keeps R (write env (λ n. create_user (env.new_uuid n) (env.db_now n) email hash role))
  registered-Keeps email hash role =
      Keeps-write order env _ λ n d. s.registered (env.new_uuid n) (env.db_now n) email hash role d

  pub favorited-Keeps : (u p : ℕ) → Keeps R (write env (λ n. insert_favorite (env.db_now n) u p))
  favorited-Keeps u p = Keeps-write order env _ λ n d. s.favorited (env.db_now n) u p d

  pub unfavorited-Keeps : (u p : ℕ) → Keeps R (write env (λ n. delete_favorite u p))
  unfavorited-Keeps u p = Keeps-write order env _ λ n d. s.unfavorited u p d

  pub reported-Keeps :
      (p u : ℕ) (reason : String)
      → Keeps R (write env (λ n. create_report (env.new_uuid n) (env.db_now n) p u reason))
  reported-Keeps p u reason =
      Keeps-write order env _ λ n d. s.reported (env.new_uuid n) (env.db_now n) p u reason d

module _ (env : Env) {R : Database → Database → Type 0} (order : IsPreorder R)
    (s : AdminSteps env R) where
  pub edited-Keeps :
      (title : String) (category : Option String) (tags : List String) (id : ℕ)
      → Keeps R (write env (λ n. update_wallpaper_metadata (env.db_now n) title category tags id))
  edited-Keeps title category tags id =
      Keeps-write order env _ λ n d. s.edited (env.db_now n) title category tags id d

  pub banned-Keeps : (b : Bool) (id : ℕ) → Keeps R (write env (λ n. set_banned b id))
  banned-Keeps b id = Keeps-write order env _ λ n d. s.banned b id d

  pub promoted-Keeps : (role : String) (id : ℕ) → Keeps R (write env (λ n. set_role role id))
  promoted-Keeps role id = Keeps-write order env _ λ n d. s.promoted role id d

  pub dismissed-Keeps : (id : ℕ) → Keeps R (write env (λ n. dismiss_report id))
  dismissed-Keeps id = Keeps-write order env _ λ n d. s.dismissed id d
