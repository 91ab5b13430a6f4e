-- ===== src/Tests/Middleware.antt =====
-- The theorems on the middleware at concrete inputs.
use Prim.Native.Nat.{min}
use screenspace.Base.{
  ◌+◌, ◌-◌, String, ◌≡◌, refl, true, false, Option, none, some, [], ◌∷◌, pos, arith, inl, str_eq,
  subst, sym, ap,
}
use screenspace.Base.Dict.{lookup}
use screenspace.Db.Users.{get_user_by_id, set_banned}
use screenspace.Middleware.RateLimit.{new_rate_limiter, allow}
use screenspace.Middleware.RateLimit.Laws.{granted, requests, granted-window}
use screenspace.Middleware.RateLimit.Recovery.{after, allow-after}
use screenspace.Middleware.BannedCache.Laws.{asked, evicted, stored, run, last_set}
use screenspace.Middleware.BannedCache.History.{fresh, is_banned-eq-fresh}
use screenspace.Middleware.RateLimit.Isolation.{only, granted-only}
use screenspace.Middleware.BannedCache.{is_banned}
use screenspace.Middleware.Checks.{auth, banned_check, admin, account_banned}
use screenspace.Middleware.Checks.Guards.{IsRefused, admin_route-IsRefused}
use screenspace.Middleware.Checks.Bans.{ban_user-blocks}
use screenspace.Server.World.{World}
use screenspace.Server.Exec.{ok, ◌>>=◌, read, write}
use screenspace.Server.Exec.Inversion.{Returns}
use screenspace.Service.Auth.{TokenClaims, validate_token}
use screenspace.Handler.Wallpaper.{one_text}
use screenspace.Handler.Admin.{ban_user, change_banned, approve_wallpaper}
use screenspace.Tests.Sample.{sample_config, sample_env, sample_world, sample_request}

-- Two requests of "a" around one of "b", with a limit of one.
granted-window_example :
    granted "a" ((3, "a") ∷ (4, "b") ∷ (5, "a") ∷ []) (new_rate_limiter (pos 1) 60)
    ≡ 1 + min (requests "a" ((4, "b") ∷ (5, "a") ∷ [])) (1 - 1)
granted-window_example =
    granted-window "a" 3 ((4, "b") ∷ (5, "a") ∷ []) (new_rate_limiter (pos 1) 60)
      (inl (unfold lookup in refl)) (omega arith, (omega arith, tt))

granted-only_example :
    granted "a" ((3, "a") ∷ (4, "b") ∷ (5, "a") ∷ []) (new_rate_limiter (pos 1) 60)
    ≡ granted "a" (only "a" ((3, "a") ∷ (4, "b") ∷ (5, "a") ∷ [])) (new_rate_limiter (pos 1) 60)
granted-only_example =
    granted-only "a" ((3, "a") ∷ (4, "b") ∷ (5, "a") ∷ []) (new_rate_limiter (pos 1) 60)

-- With a limit of one, "a" is refused at 5 and let in again at 64.
allow-after_example :
    (allow 64 "a" (after ((3, "a") ∷ (4, "b") ∷ (5, "a") ∷ []) (new_rate_limiter (pos 1) 60))).0
    ≡ true
allow-after_example =
    allow-after "a" 3 64 ((4, "b") ∷ (5, "a") ∷ []) (new_rate_limiter (pos 1) 60)
      (inl (unfold lookup in refl)) (omega arith, (omega arith, tt)) (omega arith)

-- "a" was stored as banned at 3; "b" was evicted, and asked for.
is_banned-eq-fresh_example :
    (is_banned 9 "a" (run (asked 7 "b" ∷ evicted "b" ∷ stored 3 "a" true ∷ []))).0
    ≡ fresh 9 (last_set "a" (asked 7 "b" ∷ evicted "b" ∷ stored 3 "a" true ∷ []))
is_banned-eq-fresh_example =
    is_banned-eq-fresh 9 "a" (asked 7 "b" ∷ evicted "b" ∷ stored 3 "a" true ∷ [])
      (omega arith, (omega arith, tt))

-- The role of claims.
abbrev role_in : Option TokenClaims → String
role_in none = ""
role_in (some c) = c.role

user_claims :
    (token : String) (claims : TokenClaims)
    → some "token" ≡ some token
    → validate_token sample_env sample_config 0 token ≡ some claims
    → str_eq claims.role "admin" ≡ false
unfolding validate_token
user_claims token claims sent valid =
    let same : "token" ≡ token = cc in
    let found : validate_token sample_env sample_config 0 "token" ≡ some claims =
      subst (λ t. validate_token sample_env sample_config 0 t ≡ some claims) (sym same) valid in
    let role : role_in (some claims) ≡ "user" = ap role_in (sym found) in rw role refl

admin_route-IsRefused_example : IsRefused sample_world (
    auth sample_env sample_config
      (banned_check sample_env (admin (approve_wallpaper sample_env)))
      (sample_request "two")
      sample_world)
admin_route-IsRefused_example =
    admin_route-IsRefused sample_env sample_config (approve_wallpaper sample_env)
      (sample_request "two") sample_world user_claims

-- The state after the user is banned.
abbrev after_ban : World
after_ban = (ban_user sample_env (sample_request "one") sample_world).1

ban_done :
    Returns
      (ban_user sample_env (sample_request "one"))
      sample_world
      (one_text "status" "banned")
      after_ban
unfolding ban_user change_banned ◌>>=◌ read write get_user_by_id set_banned
ban_done = refl

ban_user-blocks_example :
    (banned_check sample_env
      (approve_wallpaper sample_env)
      (record (sample_request "two") { claims = some (record { user_id = "one"; role = "user" }) })
      after_ban).0
    ≡ ok account_banned
ban_user-blocks_example =
    ban_user-blocks sample_env (sample_request "one") (sample_request "two") sample_world after_ban
      (one_text "status" "banned") 1 "user" (approve_wallpaper sample_env) ban_done refl refl
