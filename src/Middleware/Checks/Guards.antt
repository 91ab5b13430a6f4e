-- ===== src/Middleware/Checks/Guards.antt =====
-- What the admin routes of server/main.go let through: `Auth`, `BannedCheck`, `Admin`, in a row.
use screenspace.Base.{
  String, ◌≡◌, refl, Bool, true, false, Option, none, some, inl, inr, ◌⊎◌, Option-cases, str_eq,
}
use screenspace.Config.{Config}
use screenspace.Server.Env.{Env}
use screenspace.Server.World.{World}
use screenspace.Server.Exec.{Result, ok, ◌>>=◌, call, read}
use screenspace.Server.Json.{Response, error}
use screenspace.Server.Request.{Request, Handler}
use screenspace.Service.Auth.{TokenClaims, validate_token}
use screenspace.Strconv.{after_prefix}
use screenspace.Middleware.Checks.{
  auth, admin, is_admin, banned_check, cached_banned, by_cache, ask_banned, banned_or_next,
  remember_banned, account_banned,
}

-- The response is 401 or 403, and the tables are as they were.
abbrev pub IsRefused : World → Result Response × World → Type 0
IsRefused w out =
    (response : Response) × (out.0 ≡ ok response)
    × ((response.status ≡ 401) ⊎ (response.status ≡ 403))
    × (out.1.db ≡ w.db)

module _ (env : Env) (h : Handler) where
  admin-IsRefused :
      (r : Request) (w : World) → is_admin r.claims ≡ false → IsRefused w (admin h r w)
  unfolding admin error
  admin-IsRefused r w plain_user = rw plain_user (_, refl, inr refl, refl)

  banned_or_next-IsRefused :
      (b : Bool) (r : Request) (w : World)
      → is_admin r.claims ≡ false
      → IsRefused w (banned_or_next env b (admin h) r w)
  unfolding error
  banned_or_next-IsRefused true r w plain_user = (account_banned, refl, inr refl, refl)
  banned_or_next-IsRefused false r w plain_user = admin-IsRefused r w plain_user

  ask_banned-IsRefused :
      (c : TokenClaims) (r : Request) (w : World)
      → is_admin r.claims ≡ false
      → IsRefused w (ask_banned env c (admin h) r w)
  unfolding ask_banned ◌>>=◌ read remember_banned error
  ask_banned-IsRefused c r w plain_user = elim (Option-cases (env.parse_uuid c.user_id)) [
    | inl bad ↦ rw (bad, ask_banned) (_, refl, inl refl, refl)
    | inr (id, good) ↦ rw (good, ask_banned) (banned_or_next-IsRefused _ r _ plain_user)
  ]

  by_cache-IsRefused :
      (c : TokenClaims) (hit : Option Bool) (r : Request) (w : World)
      → is_admin r.claims ≡ false
      → IsRefused w (by_cache env c hit (admin h) r w)
  by_cache-IsRefused c none r w plain_user = ask_banned-IsRefused c r w plain_user
  by_cache-IsRefused c (some b) r w plain_user = banned_or_next-IsRefused b r w plain_user

  banned_check-IsRefused :
      (claims : Option TokenClaims) (r : Request) (w : World)
      → is_admin claims ≡ false
      → IsRefused w (banned_check env (admin h) (record r { claims = claims }) w)
  unfolding banned_check ◌>>=◌ cached_banned
  banned_check-IsRefused none r w plain_user =
      admin-IsRefused (record r { claims = none }) w plain_user
  banned_check-IsRefused (some c) r w plain_user =
      by_cache-IsRefused c _ (record r { claims = some c }) _ plain_user

-- A request to an admin route whose token, if it has one that is accepted, is not an admin's gets
-- 401 or 403 and changes no table, whatever the handler of the route does.
pub admin_route-IsRefused :
    (env : Env) (cfg : Config) (h : Handler) (r : Request) (w : World)
    → ((token : String) (claims : TokenClaims)
        → after_prefix "Bearer " r.authorization ≡ some token
        → validate_token env cfg (env.clock w.calls) token ≡ some claims
        → str_eq claims.role "admin" ≡ false)
    → IsRefused w (auth env cfg (banned_check env (admin h)) r w)
unfolding auth ◌>>=◌ call error
admin_route-IsRefused env cfg h r w plain_user =
    elim (Option-cases (after_prefix "Bearer " r.authorization)) [
      | inl missing ↦ rw (missing, auth) (_, refl, inl refl, refl)
      | inr (token, sent) ↦ elim (Option-cases (validate_token env cfg (env.clock w.calls) token)) [
        | inl invalid ↦ rw (sent, auth) (rw invalid (_, refl, inl refl, refl))
        | inr (claims, valid) ↦
            rw (sent, auth)
              (rw valid (
                banned_check-IsRefused env h (some claims) r _
                  (plain_user token claims sent valid)))
      ]
    ]
