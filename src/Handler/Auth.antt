-- ===== src/Handler/Auth.antt =====
-- server/internal/handler/auth.go: `AuthHandler`.
pub mod Email
pub mod Login
pub mod Register
use Prim.Native.String.{len, ◌++◌ as append}
use screenspace.Base.{
  ℕ, String, Bool, true, false, not, ◌&&◌, ◌||◌, none, List, [], ◌∷◌, pos, ltb_ℤ, ◌==◌, str_eq,
  if◌then◌else◌,
}
use screenspace.Apperr.{Error, not_found, bad_request, internal}
use screenspace.Types.{role_user, role_admin}
use screenspace.Config.{Config}
use screenspace.Strconv.{codes, show_int}
use screenspace.Db.Models.{User, Reply, done, failed, unique_violation}
use screenspace.Db.Users.{create_user, get_user_by_id, get_user_by_email}
use screenspace.Server.Env.{Env}
use screenspace.Server.Exec.{
  Exec, pure, throw, or_throw, throw_if, ◌>>=◌, ◌>>◌, write, read, reply_or,
}
use screenspace.Server.Json.{Response, json, obj, field, end, text}
use screenspace.Server.Request.{Handler}
use screenspace.Service.Auth.{hash_password, verify_password, generate_token}
use screenspace.Handler.Adapter.{claims_user, parse_uuid, decode_json}

-- [^@\s]
abbrev pub plain : ℕ → Bool
plain c = not (c == b'@' || c == 9 || c == 10 || c == 12 || c == 13 || c == 0x20)

-- A point, and one more character behind it.
unfoldable pub inner_point : List ℕ → Bool
inner_point [] = false
inner_point (c ∷ []) = false
inner_point (c ∷ d ∷ cs) = let rest = inner_point (d ∷ cs) in c == b'.' || rest

unfoldable pub all_plain : List ℕ → Bool
all_plain [] = true
all_plain (c ∷ cs) = let rest = all_plain cs in plain c && rest

-- [^@\s]+\.[^@\s]+$
abbrev pub domain : List ℕ → Bool
domain [] = false
domain (c ∷ cs) = all_plain (c ∷ cs) && inner_point cs

-- [^@\s]*@ and the domain
unfoldable pub user_part : List ℕ → Bool
user_part [] = false
user_part (c ∷ cs) =
    let rest = user_part cs in if c == b'@' then domain cs else if plain c then rest else false

-- `emailRe.MatchString`
unfoldable pub is_email : List ℕ → Bool
unfolding user_part all_plain inner_point
is_email [] = false
is_email (c ∷ cs) = plain c && user_part cs

-- An `*AppError` that the handlers build themselves.
abbrev pub invalid_credentials : Error
invalid_credentials = record {
  status = 401;
  code = "unauthorized";
  message = "invalid credentials";
  cause = none;
}

abbrev pub banned_account : Error
banned_account = record { status = 403; code = "banned"; message = "account banned"; cause = none }

abbrev pub registration_failed : Error
registration_failed = record {
  status = 409;
  code = "conflict";
  message = "registration failed";
  cause = none;
}

-- The error of `CreateUser`, by its code.
abbrev pub created_or_throw : Reply User → Exec User
created_or_throw (done user) = pure user
created_or_throw (failed unique_violation) = throw registration_failed
created_or_throw (failed _) = throw (internal "create user")

module _ (env : Env) (cfg : Config) where
  -- The token of a user, with its role.
  unfoldable pub respond_token : ℕ → User → Exec Response
  respond_token status user = do
    generated ← generate_token env cfg (env.uuid_string user.id) user.role
    token ← or_throw generated (internal "generate token")
    pure (json status (obj (field "token" (text token) (field "role" (text user.role) end))))

  abbrev too_short : String
  too_short =
      append "password must be at least " (append (show_int cfg.min_password_len) " characters")

  -- The role of a new account.
  abbrev pub role_for : String → String
  role_for email = if str_eq email cfg.admin_email then role_admin else role_user

  -- `Register`, after the checks of the body.
  unfoldable pub create_account : String → String → Exec User
  create_account email password = do
    hashed ← hash_password env cfg password
    hash ← or_throw hashed (internal "hash password")
    created ←
        write env (λ n. create_user (env.new_uuid n) (env.db_now n) email hash (role_for email))
    created_or_throw created

  -- `Register`
  unfoldable pub register : Handler
  register r = do
    req ← decode_json r
    throw_if (str_eq req.email "" || str_eq req.password "")
        (bad_request "email and password are required")
    throw_if (not (is_email (codes req.email))) (bad_request "invalid email format")
    throw_if (ltb_ℤ (pos (len req.password)) cfg.min_password_len) (bad_request too_short)
    user ← create_account req.email req.password
    respond_token 201 user

  -- `Login`
  unfoldable pub login : Handler
  login r = do
    req ← decode_json r
    throw_if (str_eq req.email "" || str_eq req.password "")
        (bad_request "email and password are required")
    found ← read env (get_user_by_email req.email)
    user ← reply_or found invalid_credentials
    throw_if user.banned banned_account
    throw_if (not (verify_password env cfg user.password_hash req.password)) invalid_credentials
    respond_token 200 user

-- `Me`
unfoldable pub me : Env → Handler
me env r = do
  claims_id ← claims_user r
  user_id ← parse_uuid env claims_id
  found ← read env (get_user_by_id user_id)
  user ← reply_or found (not_found "user not found")
  pure (
      json 200 (
        obj (
          field "id" (text (env.uuid_string user.id))
            (field "email" (text user.email) (field "role" (text user.role) end)))))
