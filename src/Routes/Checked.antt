-- ===== src/Routes/Checked.antt =====
-- What the middleware of a route keeps, when its handler keeps it.
use screenspace.Base.{ℕ, String, ◌≡◌, Bool, Option, none, some}
use screenspace.Config.{Config}
use screenspace.Db.Models.{Database}
use screenspace.Middleware.RateLimit.{RateLimiter}
use screenspace.Server.Env.{Env}
use screenspace.Server.World.{World}
use screenspace.Server.Exec.Keeps.{IsPreorder, Keeps, keeps_rules}
use screenspace.Server.Request.{Request, Handler}
use screenspace.Service.Auth.{TokenClaims}
use screenspace.Middleware.Checks.{
  Limiter, admit, per_ip, per_user, banned_check, ask_banned, by_cache, banned_or_next,
  cached_banned, asked, checked, by_header, remember_banned, auth, with_claims, admin,
}
use screenspace.Handler.Adapter.{wrap}
use screenspace.Routes.{limited, within}

module _ {R : Database → Database → Type 0} (order : IsPreorder R) where
  wrap-Keeps : (h : Handler) (r : Request) → Keeps R (h r) → Keeps R (wrap h r)
  unfolding wrap
  wrap-Keeps h r k = record { at = λ w. k.at w }

  module _ (env : Env) where
    admit-Keeps :
        (l : Limiter) (key : String)
        → ((rl : RateLimiter) (w : World) → (l.update rl w).db ≡ w.db)
        → Keeps R (admit env l key)
    unfolding admit
    admit-Keeps l key same = record { at = λ w. rw (same _ _) (order.same w.db) }

    cached_banned-Keeps : (u : String) → Keeps R (cached_banned env u)
    unfolding cached_banned
    cached_banned-Keeps u = record { at = λ w. order.same w.db }

    remember_banned-Keeps : (u : String) (b : Bool) → Keeps R (remember_banned env u b)
    unfolding remember_banned
    remember_banned-Keeps u b = record { at = λ w. order.same w.db }

    module _ (h : Handler) (k : (r : Request) → Keeps R (h r)) where
      pub per_ip-Keeps :
          (l : Limiter) (same : (rl : RateLimiter) (w : World) → (l.update rl w).db ≡ w.db)
          → (r : Request) → Keeps R (per_ip env l (wrap h) r)
      unfolding per_ip
      per_ip-Keeps l same r = search (keeps_rules, order, admit-Keeps, wrap-Keeps, k, same) depth 12

      pub per_user-Keeps :
          (l : Limiter) (same : (rl : RateLimiter) (w : World) → (l.update rl w).db ≡ w.db)
          → (r : Request) → Keeps R (per_user env l (wrap h) r)
      unfolding per_user
      per_user-Keeps l same r =
          search (keeps_rules, order, admit-Keeps, wrap-Keeps, k, same) depth 12

      pub admin-Keeps : (r : Request) → Keeps R (admin (wrap h) r)
      unfolding admin
      admin-Keeps r = search (keeps_rules, order, wrap-Keeps, k) depth 12

      within-Keeps :
          (l : Limiter) (same : (rl : RateLimiter) (w : World) → (l.update rl w).db ≡ w.db)
          (message : String) (claims : Option TokenClaims) (r : Request)
          → Keeps R (within env l message h claims r)
      within-Keeps l same message none r = k r
      within-Keeps l same message (some c) r =
          search (keeps_rules, order, admit-Keeps, k, same) depth 12

      pub limited-Keeps :
          (l : Limiter) (same : (rl : RateLimiter) (w : World) → (l.update rl w).db ≡ w.db)
          (message : String) (r : Request)
          → Keeps R (limited env l message h r)
      unfolding limited
      limited-Keeps l same message r = within-Keeps l same message r.claims r

      banned_or_next-Keeps : (b : Bool) (r : Request) → Keeps R (banned_or_next env b h r)
      banned_or_next-Keeps b r = search (keeps_rules, order, k) depth 12

      asked-Keeps : (c : TokenClaims) (o : Option ℕ) (r : Request) → Keeps R (asked env c o h r)
      asked-Keeps c none r = search (keeps_rules, order) depth 12
      asked-Keeps c (some id) r =
          search (keeps_rules, order, remember_banned-Keeps, banned_or_next-Keeps) depth 12

      ask_banned-Keeps : (c : TokenClaims) (r : Request) → Keeps R (ask_banned env c h r)
      unfolding ask_banned
      ask_banned-Keeps c r = asked-Keeps c _ r

      by_cache-Keeps :
          (c : TokenClaims) (hit : Option Bool) (r : Request) → Keeps R (by_cache env c hit h r)
      by_cache-Keeps c none r = ask_banned-Keeps c r
      by_cache-Keeps c (some b) r = banned_or_next-Keeps b r

      checked-Keeps : (claims : Option TokenClaims) (r : Request) → Keeps R (checked env claims h r)
      checked-Keeps none r = k r
      checked-Keeps (some c) r =
          search (keeps_rules, order, cached_banned-Keeps, by_cache-Keeps) depth 12

      pub banned_check-Keeps : (r : Request) → Keeps R (banned_check env h r)
      unfolding banned_check
      banned_check-Keeps r = checked-Keeps r.claims r

      module _ (cfg : Config) where
        with_claims-Keeps :
            (claims : Option TokenClaims) (r : Request) → Keeps R (with_claims env cfg claims h r)
        with_claims-Keeps none r = search (keeps_rules, order) depth 12
        with_claims-Keeps (some c) r = k _

        by_header-Keeps :
            (token : Option String) (r : Request) → Keeps R (by_header env cfg token h r)
        by_header-Keeps none r = search (keeps_rules, order) depth 12
        by_header-Keeps (some t) r = search (keeps_rules, order, with_claims-Keeps) depth 12

        pub auth-Keeps : (r : Request) → Keeps R (auth env cfg h r)
        unfolding auth
        auth-Keeps r = by_header-Keeps _ r
