-- ===== src/Middleware/BannedCache.antt =====
-- server/internal/middleware/banned.go: the cache of who is banned.
pub mod Laws
pub mod History
use screenspace.Base.{
  ℕ, ◌+◌, ◌*◌, ◌^◌, String, ◌≡◌, refl, Bool, true, false, Option, none, some, [], ltb,
  if◌then◌else◌,
}
use screenspace.Base.Dict.{Dict, lookup, insert, delete}

-- Times are in nanoseconds.
abbrev pub second : ℕ
second = 10 ^ 9

-- `bannedCacheTTL`
abbrev pub banned_cache_ttl : ℕ
banned_cache_ttl = 60 * second

-- `bannedCacheEntry`
pub record BannedEntry : Type 0 where
  pub banned : Bool
  pub expires_at : ℕ

-- `BannedCache`
abbrev pub BannedCache : Type 0
BannedCache = Dict BannedEntry

-- `NewBannedCache`
abbrev pub new_banned_cache : BannedCache
new_banned_cache = []

abbrev pub is_banned_entry :
    ℕ → String → BannedCache → Option BannedEntry → Option Bool × BannedCache
is_banned_entry now user_id c none = (none, delete user_id c)
is_banned_entry now user_id c (some e) =
    if ltb e.expires_at now then (none, delete user_id c) else (some e.banned, c)

-- `IsBanned`: `none` for a miss, which drops the entry.
unfoldable pub is_banned : ℕ → String → BannedCache → Option Bool × BannedCache
is_banned now user_id c = is_banned_entry now user_id c (lookup user_id c)

-- `Set`
unfoldable pub set : ℕ → String → Bool → BannedCache → BannedCache
set now user_id banned c =
    insert user_id (record { banned = banned; expires_at = now + banned_cache_ttl }) c

-- `Evict`
unfoldable pub evict : String → BannedCache → BannedCache
evict user_id c = delete user_id c
