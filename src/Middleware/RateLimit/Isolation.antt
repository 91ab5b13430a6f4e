-- ===== src/Middleware/RateLimit/Isolation.antt =====
-- What the rate limiter decides for a key depends on the requests of that key alone.
use screenspace.Base.{
  ℕ, ◌+◌, String, ◌≡◌, ◌≢◌, refl, ap, ◌∙◌, Bool, Option, none, some, List, [], ◌∷◌, arith, eq_iff,
  eq_refl, str_eq, if◌then◌else◌, Bool-cases, inl, inr,
}
use screenspace.Base.Dict.{lookup, lookup-insert_self}
use screenspace.Middleware.RateLimit.{
  WindowEntry, RateLimiter, count_up, open_window, allow_entry, allow,
}
use screenspace.Middleware.RateLimit.Laws.{Event, granted, lookup-allow_ne}

-- The requests of one key, in order.
pub only : String → List Event → List Event
only key [] = []
only key ((now, k) ∷ es) = let rest = only key es in if str_eq k key then (now, k) ∷ rest else rest

-- Two limiters with the same limits that hold the same entry for a key.
record Agree (key : String) (a b : RateLimiter) : Type 0 where
  entry : lookup key a.entries ≡ lookup key b.entries
  max : a.max ≡ b.max
  window : a.window ≡ b.window

abbrev Same : String → Bool × RateLimiter → Bool × RateLimiter → Type 0
Same key x y = (x.0 ≡ y.0) × Agree key x.1 y.1

allow_entry-Agree :
    (now : ℕ) (key : String) (a b : RateLimiter) (o : Option WindowEntry)
    → Agree key a b
    → Same key (allow_entry now key a o) (allow_entry now key b o)
allow_entry-Agree now key a b none h = ground (
  arith,
  lookup-insert_self key (open_window now a) a.entries,
  lookup-insert_self key (open_window now b) b.entries,
)
allow_entry-Agree now key a b (some e) h = ground (
  arith,
  lookup-insert_self key (open_window now a) a.entries,
  lookup-insert_self key (open_window now b) b.entries,
  lookup-insert_self key (count_up e) a.entries,
  lookup-insert_self key (count_up e) b.entries,
)

allow-Agree :
    (now : ℕ) (key : String) (a b : RateLimiter)
    → Agree key a b
    → Same key (allow now key a) (allow now key b)
unfolding allow
allow-Agree now key a b h = rw h.entry (allow_entry-Agree now key a b (lookup key b.entries) h)

allow_ne-Agree :
    (now : ℕ) (k key : String) (a b : RateLimiter)
    → k ≢ key
    → Agree key a b
    → Agree key (allow now k a).1 b
allow_ne-Agree now k key a b ne h = record {
  entry = lookup-allow_ne now k key a ne ∙ h.entry;
  max = unfold allow in ground arith;
  window = unfold allow in ground arith;
}

granted-Agree :
    (key : String) (es : List Event) (a b : RateLimiter)
    → Agree key a b
    → granted key es a ≡ granted key (only key es) b
unfolding granted only
granted-Agree key [] a b h = refl
granted-Agree key ((now, k) ∷ es) a b h = elim (Bool-cases (str_eq k key)) [
  | inl same ↦
      let both = allow-Agree now key a b h in
      rw (same, (eq_iff k key).0 same)
        (rw (eq_refl key) (
          rw both.0 (
            ap (λ (n : ℕ). (if (allow now key b).0 then 1 else 0) + n)
              (granted-Agree key es (allow now key a).1 (allow now key b).1 both.1))))
  | inr other ↦
      let ne : (k ≢ key) = λ q. ground (arith, eq_iff k key) in
      rw other (
        omega (arith, granted-Agree key es (allow now k a).1 b (allow_ne-Agree now k key a b ne h)))
]

-- However the requests of other keys are interleaved, a key is granted as many requests as if
-- only its own had come.
pub granted-only :
    (key : String) (es : List Event) (rl : RateLimiter)
    → granted key es rl ≡ granted key (only key es) rl
granted-only key es rl =
    granted-Agree key es rl rl (record { entry = refl; max = refl; window = refl })
