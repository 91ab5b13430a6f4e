-- ===== src/Service/Auth/Tokens.antt =====
-- A token that the service made is one that it accepts, with the claims it was made for.
use screenspace.Base.{
  ℕ, suc, String, ◌≡◌, refl, ◌∙◌, ap, Option, Option-cases, inl, inr, some, ℤ, pos, add_ℤ, ltb_ℤ,
  true,
}
use screenspace.Config.{Config}
use screenspace.Server.Env.{Env, Token, SigningMethod, signing_hmac, signing_other}
use screenspace.Server.World.{World}
use screenspace.Server.Exec.{ok, ◌>>=◌, call}
use screenspace.Service.Auth.{TokenClaims, unix, key_func, generate_token, validate_token}

-- What the JWT library documents of Parse: a token of HS256 that was signed with the secret which the
-- function for the key gives for that method is valid, with the claims that were signed, at every
-- time before it expires.
abbrev pub ParsesSigned : Env → Type 0
ParsesSigned env =
    (key : SigningMethod → Option String) (secret sub role token : String) (exp iat : ℤ) (now : ℕ)
    → env.jwt_sign secret sub role exp iat ≡ some token
    → key (signing_hmac "HS256") ≡ some secret
    → ltb_ℤ (unix (pos now)) exp ≡ true
    → env.jwt_parse key now token
      ≡ some (record { claims = some (record { sub = some sub; role = some role }); valid = true })

-- And: it accepts no token unless the function gives a key for the method in the token's header.
abbrev pub AsksForKey : Env → (String → Option SigningMethod) → Type 0
AsksForKey env method =
    (key : SigningMethod → Option String) (now : ℕ) (token : String) (t : Token)
    → env.jwt_parse key now token ≡ some t
    → (m : SigningMethod) × (secret : String) × (method token ≡ some m) × (key m ≡ some secret)

-- A token that `GenerateToken` returns is accepted by `ValidateToken`, with the user's id and role,
-- at every time in a second before the one in which the configured expiry has passed since it was
-- made, when the JWT library parses what it signs until it expires.
pub validate-generate_token :
    (env : Env) (cfg : Config) (parses : ParsesSigned env) (user_id role token : String)
    → (now : ℕ) (w : World) → (generate_token env cfg user_id role w).0 ≡ ok (some token)
    → ltb_ℤ (unix (pos now)) (unix (add_ℤ (pos (env.clock w.calls)) cfg.jwt_expiry)) ≡ true
    → validate_token env cfg now token ≡ some (record { user_id = user_id; role = role })
unfolding generate_token validate_token ◌>>=◌ call
validate-generate_token env cfg parses user_id role token now w made before =
    let exp = unix (add_ℤ (pos (env.clock w.calls)) cfg.jwt_expiry) in
    let iat = unix (pos (env.clock (suc w.calls))) in
    let signed : env.jwt_sign cfg.jwt_secret user_id role exp iat ≡ some token = cc in
    rw
      (
        validate_token,
        parses (key_func env cfg) cfg.jwt_secret user_id role token exp iat now signed refl before,
      )
      (λ i. some (record { user_id = user_id; role = role }))

hmac_of :
    (env : Env) (cfg : Config) (m : SigningMethod) (secret : String)
    → key_func env cfg m ≡ some secret
    → (alg : String) × (m ≡ signing_hmac alg) × (secret ≡ cfg.jwt_secret)
hmac_of env cfg (signing_hmac alg) secret h = (alg, refl, cc)
hmac_of env cfg (signing_other alg) secret h = absurd (cc)

-- A token that `ValidateToken` accepts names a method of HMAC in its header, whatever else it says,
-- when the JWT library accepts no token without a key for the method in its header.
pub validate_token-hmac :
    (env : Env) (cfg : Config) (method : String → Option SigningMethod)
    (asks : AsksForKey env method) (now : ℕ) (token : String) (claims : TokenClaims)
    → validate_token env cfg now token ≡ some claims
    → (alg : String) × (method token ≡ some (signing_hmac alg))
unfolding validate_token
validate_token-hmac env cfg method asks now token claims h =
    elim (Option-cases (env.jwt_parse (key_func env cfg) now token)) [
      | inl refused ↦ absurd (let h' = rw (refused, validate_token) at h in cc)
      | inr (t, parsed) ↦
          let (m, secret, header, key) = asks (key_func env cfg) now token t parsed in
          let (alg, is_hmac, same) = hmac_of env cfg m secret key in (alg, header ∙ ap some is_hmac)
    ]
