-- ===== src/Middleware/RateLimit/Recovery.antt =====
-- The rate limiter lets a key in again: no window is extended by what it refuses.
use screenspace.Base.{
  ℕ, ◌+◌, ◌≤◌, ◌<◌, String, ◌≡◌, refl, ◌∙◌, true, some, List, [], ◌∷◌, pos_part, ltb, arith, eq_iff,
  str_eq, Bool-cases, inl, inr,
}
use screenspace.Base.Dict.{lookup, insert, lookup-insert_self}
use screenspace.Middleware.RateLimit.{WindowEntry, RateLimiter, open_window, count_up, allow}
use screenspace.Middleware.RateLimit.Laws.{
  Event, AllBy, IsIdle, lookup-allow_ne, allow-open, allow-idle,
}

-- The limiter after it has answered the requests in order.
unfoldable pub after : List Event → RateLimiter → RateLimiter
after [] rl = rl
after ((now, k) ∷ es) rl = after es (allow now k rl).1

-- The window of a key ends at the time.
abbrev EndsAt : ℕ → String → RateLimiter → Type 0
EndsAt limit key rl = (e : WindowEntry) × (lookup key rl.entries ≡ some e) × (e.window_end ≡ limit)

-- A request of the key before that time leaves the end where it is.
allow-EndsAt :
    (limit now : ℕ) (key k : String) (rl : RateLimiter)
    → now ≤ limit
    → EndsAt limit key rl
    → EndsAt limit key (allow now k rl).1
allow-EndsAt limit now key k rl before (e, live, end) = elim (Bool-cases (str_eq k key)) [
  | inl same ↦
      let a = allow-open now key rl e live (omega arith) in
      rw ((eq_iff k key).0 same) (elim (Bool-cases (ltb e.count (pos_part rl.max))) [
        | inl below ↦
            rw (rw below at a) (count_up e, lookup-insert_self key (count_up e) rl.entries, end)
        | inr full ↦ rw (rw full at a) (e, live, end)
      ])
  | inr other ↦ (e, lookup-allow_ne now k key rl (λ q. ground (arith, eq_iff k key)) ∙ live, end)
]

after-EndsAt :
    (limit : ℕ) (key : String) (es : List Event) (rl : RateLimiter)
    → AllBy limit es
    → EndsAt limit key rl
    → EndsAt limit key (after es rl)
unfolding after
after-EndsAt limit key [] rl h end = end
after-EndsAt limit key ((now, k) ∷ es) rl h end =
    after-EndsAt limit key es (allow now k rl).1 h.1 (allow-EndsAt limit now key k rl h.0 end)

-- When an idle key makes a request and then any others come, of this key or of others, by the end of
-- the window that it opened, the next request of the key after that end is let through, however many
-- were refused before.
pub allow-after :
    (key : String) (start now : ℕ) (es : List Event) (rl : RateLimiter)
    → IsIdle start key rl
    → AllBy (start + rl.window) es
    → start + rl.window < now
    → (allow now key (after ((start, key) ∷ es) rl)).0 ≡ true
unfolding after
allow-after key start now es rl idle h later =
    let opened : RateLimiter = record rl {
      entries = insert key (open_window start rl) rl.entries;
    } in
    let (e, live, end) =
      after-EndsAt (start + rl.window) key es opened h
        (open_window start rl, lookup-insert_self key (open_window start rl) rl.entries, refl) in
    rw (allow-idle start key rl idle)
      (rw (allow-idle now key (after es opened) (inr (e, live, omega arith))) refl)
