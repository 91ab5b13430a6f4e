-- ===== src/Server/World.antt =====
-- The state that requests share.
use screenspace.Base.{ℕ, String, List}
use screenspace.Db.Models.{Database}
use screenspace.Middleware.BannedCache.{BannedCache}
use screenspace.Middleware.RateLimit.{RateLimiter}

-- The five limiters of server/main.go.
pub record Limiters : Type 0 where
  pub public_limiter : RateLimiter
  pub auth_limiter : RateLimiter
  pub user_limiter : RateLimiter
  pub upload_limiter : RateLimiter
  pub download_limiter : RateLimiter

pub record World : Type 0 where
  pub db : Database
  -- the calls made so far of code outside the repository
  pub calls : ℕ
  -- the temporary files on disk
  pub files : List String
  -- the keys of the objects that the server has put into the store
  pub objects : List String
  pub banned_cache : BannedCache
  pub limiters : Limiters
