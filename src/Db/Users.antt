-- ===== src/Db/Users.antt =====
-- server/db/generated/user.sql.go.
use screenspace.Base.{
  ℕ, String, Bool, false, ◌||◌, List, [], ◌∷◌, ◌++◌, ℤ, ◌==◌, str_eq, if◌then◌else◌, find, any,
  filter, map_if, leb, length,
}
use screenspace.Db.Models.{User, Database, Reply, done, failed, unique_violation, one, page}
use screenspace.Db.Order.{order_by}

abbrev pub user_id_is : ℕ → User → Bool
user_id_is id u = u.id == id

abbrev pub user_email_is : String → User → Bool
user_email_is email u = str_eq u.email email

abbrev pub new_user : ℕ → ℕ → String → String → String → User
new_user id now email password_hash role = record {
  id = id;
  email = email;
  password_hash = password_hash;
  role = role;
  banned = false;
  created_at = now;
}

-- `CreateUser`: the key and the email are unique.
unfoldable pub create_user : ℕ → ℕ → String → String → String → Database → Reply User × Database
create_user id now email password_hash role db =
    if any (user_id_is id) db.users || any (user_email_is email) db.users
    then (failed unique_violation, db)
    else (
      done (new_user id now email password_hash role),
      record db { users = db.users ++ new_user id now email password_hash role ∷ [] },
    )

-- `GetUserByID`
unfoldable pub get_user_by_id : ℕ → Database → Reply User
get_user_by_id id db = one (find (user_id_is id) db.users)

-- `GetUserByEmail`
unfoldable pub get_user_by_email : String → Database → Reply User
get_user_by_email email db = one (find (user_email_is email) db.users)

-- ORDER BY created_at DESC
abbrev pub newer_user : User → User → Bool
newer_user u v = leb v.created_at u.created_at

-- `ListUsers`
unfoldable pub list_users : (ℤ → ℤ → ℕ → ℕ) → ℤ → ℤ → Database → Reply (List User)
unfolding order_by page
list_users ties lim off db = page lim off (order_by (λ u. ties lim off u.id) newer_user db.users)

-- `CountUsers`
unfoldable pub count_users : Database → Reply ℕ
count_users db = done (length db.users)

module _ (ilike : String → String → Bool) where
  -- `ListUsersWithSearch`
  unfoldable pub list_users_with_search :
      (ℤ → ℤ → ℕ → ℕ) → String → ℤ → ℤ → Database → Reply (List User)
  unfolding order_by page
  list_users_with_search ties query lim off db =
      page lim off
        (order_by (λ u. ties lim off u.id) newer_user (filter (λ u. ilike u.email query) db.users))

  -- `CountUsersWithSearch`
  unfoldable pub count_users_with_search : String → Database → Reply ℕ
  count_users_with_search query db = done (length (filter (λ u. ilike u.email query) db.users))

-- `SetBanned`
unfoldable pub set_banned : Bool → ℕ → Database → Reply (Unit {0}) × Database
set_banned banned id db = (
  done tt,
  record db { users = map_if (user_id_is id) (λ u. record u { banned = banned }) db.users },
)

-- `SetRole`
unfoldable pub set_role : String → ℕ → Database → Reply (Unit {0}) × Database
set_role role id db =
    (done tt, record db { users = map_if (user_id_is id) (λ u. record u { role = role }) db.users })
