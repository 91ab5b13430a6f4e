-- ===== src/Middleware/RateLimit/Laws.antt =====
-- The guarantee of the rate limiter, over any run of requests.
use Prim.Native.Nat.{min}
use screenspace.Base.{
  ℕ, ◌+◌, ◌-◌, ◌≤◌, ◌<◌, String, ◌≡◌, ◌≢◌, ◌⊎◌, true, false, Option, none, some, List, [], ◌∷◌,
  pos_part, ltb, arith, eq_iff, eq_refl, str_eq, if◌then◌else◌, Bool-cases, inl, inr, ◌∙◌, ap,
}
use screenspace.Base.Dict.{lookup, insert, lookup-insert_self, lookup-insert_ne}
use screenspace.Middleware.RateLimit.{
  WindowEntry, RateLimiter, open_window, count_up, allow_entry, allow,
}

-- A request: the time at which it comes, and its key.
abbrev pub Event : Type 0
Event = ℕ × String

-- The limiter serves the requests in order; the number of those of one key that it lets through.
unfoldable pub granted : String → List Event → RateLimiter → ℕ
granted key [] rl = 0
granted key ((now, k) ∷ es) rl =
    (if str_eq k key then (if (allow now k rl).0 then 1 else 0) else 0)
    + granted key es (allow now k rl).1

-- The number of the requests of one key.
unfoldable pub requests : String → List Event → ℕ
requests key [] = 0
requests key ((now, k) ∷ es) = (if str_eq k key then 1 else 0) + requests key es

-- Every request comes at `limit` or earlier.
abbrev pub AllBy : ℕ → List Event → Type 0
AllBy limit [] = Unit
AllBy limit ((now, k) ∷ es) = (now ≤ limit) × AllBy limit es

-- The key has no window that is still open at the time.
abbrev pub IsIdle : ℕ → String → RateLimiter → Type 0
IsIdle now key rl =
    (lookup key rl.entries ≡ none)
    ⊎ ((e : WindowEntry) × (lookup key rl.entries ≡ some e) × (e.window_end < now))

lookup-allow_entry_ne :
    (now : ℕ) (k key : String) (rl : RateLimiter) (o : Option WindowEntry)
    → k ≢ key
    → lookup key (allow_entry now k rl o).1.entries ≡ lookup key rl.entries
lookup-allow_entry_ne now k key rl none ne =
    lookup-insert_ne k key (open_window now rl) rl.entries ne
lookup-allow_entry_ne now k key rl (some e) ne = ground (
  arith,
  lookup-insert_ne k key (open_window now rl) rl.entries ne,
  lookup-insert_ne k key (count_up e) rl.entries ne,
)

-- One request leaves the entries of other keys alone.
pub lookup-allow_ne :
    (now : ℕ) (k key : String) (rl : RateLimiter)
    → k ≢ key
    → lookup key (allow now k rl).1.entries ≡ lookup key rl.entries
unfolding allow
lookup-allow_ne now k key rl ne = lookup-allow_entry_ne now k key rl (lookup k rl.entries) ne

max-allow : (now : ℕ) (k : String) (rl : RateLimiter) → (allow now k rl).1.max ≡ rl.max
unfolding allow
max-allow now k rl = ground arith

-- While the window of a key is open, a request of the key is let through and counted exactly while
-- the count is below the limit.
pub allow-open :
    (now : ℕ) (key : String) (rl : RateLimiter) (e : WindowEntry)
    → lookup key rl.entries ≡ some e
    → now ≤ e.window_end
    → allow now key rl ≡ (
        if ltb e.count (pos_part rl.max)
        then (true, record rl { entries = insert key (count_up e) rl.entries })
        else (false, rl))
unfolding allow
allow-open now key rl e live h = rw live (ground arith)

-- A request of an idle key is let through and opens a window.
pub allow-idle :
    (now : ℕ) (key : String) (rl : RateLimiter)
    → IsIdle now key rl
    → allow now key rl ≡ (true, record rl { entries = insert key (open_window now rl) rl.entries })
unfolding allow
allow-idle now key rl (inl missing) = rw missing
allow-idle now key rl (inr (e, old, h)) = rw old (ground arith)

-- In an open window, the number of requests let through is what the limit leaves, or all of them.
granted-open :
    (key : String) (es : List Event) (rl : RateLimiter) (e : WindowEntry)
    → lookup key rl.entries ≡ some e
    → AllBy e.window_end es
    → granted key es rl ≡ min (requests key es) (pos_part rl.max - e.count)
unfolding granted requests
granted-open key [] rl e live h = omega arith
granted-open key ((now, k) ∷ es) rl e live h = elim (Bool-cases (str_eq k key)) [
  | inl same ↦
      let a = allow-open now key rl e live h.0 in
      rw same (
        rw ((eq_iff k key).0 same) (elim (Bool-cases (ltb e.count (pos_part rl.max))) [
          | inl below ↦
              let rl' : RateLimiter = record rl { entries = insert key (count_up e) rl.entries } in
              let found = lookup-insert_self key (count_up e) rl.entries in
              let rest = granted-open key es rl' (count_up e) found h.1 in
              rw (rw below at a) (ground (arith, rest))
          | inr full ↦ rw (rw full at a) (ground (arith, granted-open key es rl e live h.1))
        ]))
  | inr other ↦
      let same_entry = lookup-allow_ne now k key rl (λ q. ground (arith, eq_iff k key)) ∙ live in
      let rest = granted-open key es (allow now k rl).1 e same_entry h.1 in
      rw other (ground (arith, rest, max-allow now k rl))
]

-- The guarantee of a window: when an idle key makes a request, this and all its requests of the
-- window that it opens are let through up to the limit, and none beyond (one, for a limit below 1).
pub granted-window :
    (key : String) (start : ℕ) (es : List Event) (rl : RateLimiter)
    → IsIdle start key rl
    → AllBy (start + rl.window) es
    → granted key ((start, key) ∷ es) rl ≡ 1 + min (requests key es) (pos_part rl.max - 1)
unfolding granted
granted-window key start es rl idle h = rw (allow-idle start key rl idle) (
    rw (eq_refl key) (
      ap (λ (n : ℕ). 1 + n)
        (granted-open key es (record rl { entries = insert key (open_window start rl) rl.entries })
          (open_window start rl) (lookup-insert_self key (open_window start rl) rl.entries) h)))
