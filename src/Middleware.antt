-- ===== src/Middleware.antt =====
-- server/internal/middleware: rate limits, the cache of banned users, and the checks of a request.
pub mod RateLimit
pub mod BannedCache
pub mod Checks
