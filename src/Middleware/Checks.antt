-- ===== src/Middleware/Checks.antt =====
-- server/internal/middleware: the checks that run before a handler. A header that a check adds to
-- the response (`Retry-After`, and those of security.go) is not part of the model.
pub mod Guards
pub mod Bans
use Prim.Native.Char.{Char, code}
use screenspace.Base.{
  ℕ, suc, String, Bool, true, false, not, Option, none, some, str_eq, if◌then◌else◌, ◌==◌,
}
use screenspace.Config.{Config}
use screenspace.Types.{role_admin}
use screenspace.Db.Models.{User, Reply, done, failed}
use screenspace.Db.Users.{get_user_by_id}
use screenspace.Middleware.RateLimit.{RateLimiter, allow}
use screenspace.Middleware.BannedCache.{is_banned, set}
use screenspace.Server.Env.{Env}
use screenspace.Server.World.{World, Limiters}
use screenspace.Server.Exec.{Exec, ok, pure, ◌>>=◌, ◌>>◌, call, modify, read}
use screenspace.Server.Json.{Response, error}
use screenspace.Server.Request.{Request, Handler}
use screenspace.Strconv.{after_prefix}
use screenspace.Service.Auth.{TokenClaims, validate_token}

-- One of the limiters of the state.
pub record Limiter : Type 0 where
  pub current : World → RateLimiter
  pub update : RateLimiter → World → World

abbrev pub unauthorized : String → Response
unauthorized message = error 401 "unauthorized" message

abbrev pub account_banned : Response
account_banned = error 403 "banned" "account banned"

abbrev pub too_many_requests : Response
too_many_requests = error 429 "rate_limited" "too many requests"

module _ (env : Env) where
  -- `rl.Allow`, on the limiter of the state.
  unfoldable pub admit : Limiter → String → Exec Bool
  admit l key w =
      let (allowed, rl) = allow (env.clock w.calls) key (l.current w) in
      (ok allowed, l.update rl (record w { calls = suc w.calls }))

  -- `PerIP`
  unfoldable pub per_ip : Limiter → Handler → Handler
  per_ip l next r = do
    allowed ← admit l r.remote_addr
    if allowed then next r else pure too_many_requests

  abbrev pub user_key : Request → String
  user_key r = elim r.claims [ none ↦ r.remote_addr | some c ↦ c.user_id ]

  -- `PerUser`
  unfoldable pub per_user : Limiter → Handler → Handler
  per_user l next r = do
    allowed ← admit l (user_key r)
    if allowed then next r else pure too_many_requests

  -- `cache.IsBanned`
  unfoldable pub cached_banned : String → Exec (Option Bool)
  cached_banned user_id w =
      let (hit, cache) = is_banned (env.clock w.calls) user_id w.banned_cache in
      (ok hit, record w { banned_cache = cache; calls = suc w.calls })

  -- `cache.Set`
  unfoldable pub remember_banned : String → Bool → Exec (Unit {0})
  remember_banned user_id banned w = (
    ok tt,
    record w {
      banned_cache = set (env.clock w.calls) user_id banned w.banned_cache;
      calls = suc w.calls;
    },
  )

  -- `err != nil || user.Banned`
  abbrev pub counts_as_banned : Reply User → Bool
  counts_as_banned (failed e) = true
  counts_as_banned (done user) = user.banned

  abbrev pub banned_or_next : Bool → Handler → Handler
  banned_or_next banned next r = if banned then pure account_banned else next r

  abbrev pub asked : TokenClaims → Option ℕ → Handler → Handler
  asked claims none next r = pure (unauthorized "invalid user id")
  asked claims (some id) next r = do
    found ← read env (get_user_by_id id)
    remember_banned claims.user_id (counts_as_banned found)
    banned_or_next (counts_as_banned found) next r

  -- `BannedCheck`, on a miss.
  unfoldable pub ask_banned : TokenClaims → Handler → Handler
  ask_banned claims next r = asked claims (env.parse_uuid claims.user_id) next r

  abbrev pub by_cache : TokenClaims → Option Bool → Handler → Handler
  by_cache claims none next r = ask_banned claims next r
  by_cache claims (some banned) next r = banned_or_next banned next r

  abbrev pub checked : Option TokenClaims → Handler → Handler
  checked none next r = next r
  checked (some claims) next r = do hit ← cached_banned claims.user_id; by_cache claims hit next r

  -- `BannedCheck`
  unfoldable pub banned_check : Handler → Handler
  banned_check next r = checked r.claims next r

module _ (env : Env) (cfg : Config) where
  abbrev pub with_claims : Option TokenClaims → Handler → Handler
  with_claims none next r = pure (unauthorized "invalid token")
  with_claims (some claims) next r = next (record r { claims = some claims })

  abbrev pub by_header : Option String → Handler → Handler
  by_header none next r = pure (unauthorized "missing or invalid authorization header")
  by_header (some token) next r = do
    now ← call env.clock
    with_claims (validate_token env cfg now token) next r

  -- `Auth`
  unfoldable pub auth : Handler → Handler
  auth next r = by_header (after_prefix "Bearer " r.authorization) next r

-- `claims == nil || claims.Role != types.RoleAdmin`
abbrev pub is_admin : Option TokenClaims → Bool
is_admin none = false
is_admin (some claims) = str_eq claims.role role_admin

-- `Admin`
unfoldable pub admin : Handler → Handler
admin next r =
    if is_admin r.claims then next r else pure (error 403 "forbidden" "admin access required")
