-- ===== src/Middleware/RateLimit.antt =====
-- server/internal/middleware/ratelimit.go: the fixed-window rate limiter.
pub mod Laws
pub mod Recovery
pub mod Isolation
use screenspace.Base.{
  ℕ, ◌+◌, String, Bool, true, false, not, ◌||◌, Option, none, some, [], ℤ, pos, ltb, ltb_ℤ,
  if◌then◌else◌,
}
use screenspace.Base.Dict.{Dict, lookup, insert}

-- `windowEntry`
pub record WindowEntry : Type 0 where
  pub count : ℕ
  pub window_end : ℕ

-- `RateLimiter`; the mutex makes each call of `Allow` one step.
pub record RateLimiter : Type 0 where
  pub entries : Dict WindowEntry
  pub max : ℤ
  pub window : ℕ

-- `NewRateLimiter`
abbrev pub new_rate_limiter : ℤ → ℕ → RateLimiter
new_rate_limiter max window = record { entries = []; max = max; window = window }

-- The entry after `Allow` opens a window, and after it counts one more request.
abbrev pub open_window : ℕ → RateLimiter → WindowEntry
open_window now rl = record { count = 1; window_end = now + rl.window }

abbrev pub count_up : WindowEntry → WindowEntry
count_up e = record e { count = e.count + 1 }

-- Go keeps a pointer to the entry, so `e.count++` is a write to the map.
abbrev pub allow_entry : ℕ → String → RateLimiter → Option WindowEntry → Bool × RateLimiter
allow_entry now key rl none =
    (true, record rl { entries = insert key (open_window now rl) rl.entries })
allow_entry now key rl (some e) =
    if ltb e.window_end now
    then (true, record rl { entries = insert key (open_window now rl) rl.entries })
    else if not (ltb_ℤ (pos e.count) rl.max)
    then (false, rl)
    else (true, record rl { entries = insert key (count_up e) rl.entries })

-- `Allow`, at the time that `time.Now()` returns.
unfoldable pub allow : ℕ → String → RateLimiter → Bool × RateLimiter
allow now key rl = allow_entry now key rl (lookup key rl.entries)
