-- ===== src/Middleware/BannedCache/Laws.antt =====
-- The runs of the operations of the cache of banned users.
use screenspace.Base.{ℕ, String, Bool, Option, none, some, List, [], ◌∷◌, str_eq, if◌then◌else◌}
use screenspace.Middleware.BannedCache.{BannedCache, new_banned_cache, is_banned, set, evict}

-- The calls that change the cache; `IsBanned` may drop an entry.
pub data Op : Type 0 where
  asked : ℕ → String → Op
  stored : ℕ → String → Bool → Op
  evicted : String → Op

unfoldable pub apply : Op → BannedCache → BannedCache
apply (asked now u) c = (is_banned now u c).1
apply (stored now u b) c = set now u b c
apply (evicted u) c = evict u c

-- The calls, the latest first.
unfoldable pub run : List Op → BannedCache
unfolding apply
run [] = new_banned_cache
run (op ∷ ops) = apply op (run ops)

-- The latest `Set` or `Evict` of the user, if it is a `Set`: its time and value.
unfoldable pub last_set : String → List Op → Option (ℕ × Bool)
last_set u [] = none
last_set u (asked now v ∷ ops) = last_set u ops
last_set u (stored now v b ∷ ops) = if str_eq v u then some (now, b) else last_set u ops
last_set u (evicted v ∷ ops) = if str_eq v u then none else last_set u ops
