-- ===== src/Service/Auth.antt =====
-- server/internal/service/auth.go: `AuthService`. bcrypt and the JWT library are outside.
pub mod Tokens
use screenspace.Base.{
  ℕ, ◌/◌, ◌+◌, ◌^◌, String, Bool, Option, none, some, ℤ, pos, negsuc, of_neg, add_ℤ, if◌then◌else◌,
}
use screenspace.Apperr.{Error, internal}
use screenspace.Config.{Config}
use screenspace.Middleware.BannedCache.{second}
use screenspace.Server.Env.{Env, MapClaims, Token, SigningMethod, signing_hmac, signing_other}
use screenspace.Server.Exec.{Exec, pure, or_throw, ◌>>=◌, call}

-- `TokenClaims`
pub record TokenClaims : Type 0 where
  pub user_id : String
  pub role : String

-- A time in seconds: `Unix`, which rounds down.
abbrev pub unix : ℤ → ℤ
unix (pos n) = pos (n / second)
unix (negsuc n) = negsuc (n / second)

module _ (env : Env) (cfg : Config) where
  -- `HashPassword`: the errors of these functions are wrapped by their callers.
  unfoldable pub hash_password : String → Exec (Option String)
  hash_password password = call (λ n. env.bcrypt_hash n password cfg.bcrypt_cost)

  -- `VerifyPassword`
  unfoldable pub verify_password : String → String → Bool
  verify_password hash password = env.bcrypt_matches hash password

  -- `GenerateToken`: the clock is read twice, for "exp" and for "iat".
  unfoldable pub generate_token : String → String → Exec (Option String)
  generate_token user_id role = do
    expires ← call env.clock
    issued ← call env.clock
    pure (
        env.jwt_sign cfg.jwt_secret user_id role (unix (add_ℤ (pos expires) cfg.jwt_expiry))
          (unix (pos issued)))

  -- The function for the key: only the methods of HMAC have one.
  abbrev pub key_func : SigningMethod → Option String
  key_func (signing_hmac alg) = some cfg.jwt_secret
  key_func (signing_other alg) = none

  -- Both claims must be texts.
  abbrev token_claims : MapClaims → Option TokenClaims
  token_claims c = elim c.sub [
    | none ↦ none
    | some sub ↦ elim c.role [
      | none ↦ none
      | some role ↦ some (record { user_id = sub; role = role })
    ]
  ]

  -- Of a token that was parsed.
  abbrev valid_claims : Token → Option TokenClaims
  valid_claims t = elim t.claims [ none ↦ none | some c ↦ if t.valid then token_claims c else none ]

  -- `ValidateToken`, at a time.
  unfoldable pub validate_token : ℕ → String → Option TokenClaims
  validate_token now token = elim (env.jwt_parse key_func now token) [
    | none ↦ none
    | some t ↦ valid_claims t
  ]
