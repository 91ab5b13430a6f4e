-- ===== src/Middleware/BannedCache/History.antt =====
-- The cache of banned users against its contract: what is known of a user is the latest `Set`.
use screenspace.Base.{
  ℕ, ◌+◌, ◌≤◌, ◌<◌, String, ◌≡◌, refl, Bool, true, Option, none, some, List, [], ◌∷◌, arith, str_eq,
  ltb, if◌then◌else◌, Bool-cases, inl, inr, eq_iff,
}
use screenspace.Base.Dict.{lookup, delete, lookup-insert, lookup-delete}
use screenspace.Middleware.BannedCache.{
  BannedEntry, BannedCache, banned_cache_ttl, is_banned_entry, is_banned, set, evict,
}
use screenspace.Middleware.BannedCache.Laws.{Op, asked, stored, evicted, apply, run, last_set}

-- The contract: the value of the latest `Set`, for 60 seconds.
abbrev pub fresh : ℕ → Option (ℕ × Bool) → Option Bool
fresh now none = none
fresh now (some (t, b)) = if ltb (t + banned_cache_ttl) now then none else some b

-- The calls, the latest first, come in the order of their times, and none after `now`.
abbrev pub InOrder : ℕ → List Op → Type 0
InOrder now [] = Unit
InOrder now (asked t u ∷ ops) = (t ≤ now) × InOrder t ops
InOrder now (stored t u b ∷ ops) = (t ≤ now) × InOrder t ops
InOrder now (evicted u ∷ ops) = InOrder now ops

-- The entry of a user holds what the history says, unless that is over.
abbrev Tells : ℕ → Option BannedEntry → Option (ℕ × Bool) → Type 0
Tells now none none = Unit
Tells now none (some (t, b)) = t + banned_cache_ttl < now
Tells now (some e) none = ⊥
Tells now (some e) (some (t, b)) = (e.banned ≡ b) × (e.expires_at ≡ t + banned_cache_ttl)

Tells-later :
    (t now : ℕ) (o : Option BannedEntry) (s : Option (ℕ × Bool))
    → t ≤ now
    → Tells t o s
    → Tells now o s
Tells-later t now none none le h = tt
Tells-later t now none (some (x, b)) le h = omega arith
Tells-later t now (some e) none le h = h
Tells-later t now (some e) (some (x, b)) le h = h

-- An entry that is over may be dropped.
Tells-dropped :
    (now : ℕ) (e : BannedEntry) (s : Option (ℕ × Bool))
    → ltb e.expires_at now ≡ true
    → Tells now (some e) s
    → Tells now none s
Tells-dropped now e none old h = absurd h
Tells-dropped now e (some (t, b)) old h = ground arith

module _ (now : ℕ) (u v : String) (c : BannedCache) (s : Option (ℕ × Bool)) where
  delete-Tells :
      (str_eq v u ≡ true → Tells now none s)
      → Tells now (lookup u c) s
      → Tells now (lookup u (delete v c)) s
  delete-Tells over h = elim (Bool-cases (str_eq v u)) [
    | inl same ↦ rw (lookup-delete, same) (over same)
    | inr other ↦ rw (lookup-delete, other) h
  ]

  -- `IsBanned` drops only what is missing or over.
  asked-Tells :
      (o : Option BannedEntry)
      → lookup v c ≡ o
      → Tells now (lookup u c) s
      → Tells now (lookup u (is_banned_entry now v c o).1) s
  asked-Tells none missing h =
      delete-Tells (λ same. rw (rw ((eq_iff v u).0 same) at missing) at h) h
  asked-Tells (some e) found h = elim (Bool-cases (ltb e.expires_at now)) [
    | inl old ↦ rw old (
        delete-Tells
          (λ same. Tells-dropped now e s old (rw (rw ((eq_iff v u).0 same) at found) at h)) h)
    | inr valid ↦ rw valid h
  ]

-- The state of the cache after a history tells, at its time, what the history says.
run-Tells :
    (now : ℕ) (u : String) (ops : List Op)
    → InOrder now ops
    → Tells now (lookup u (run ops)) (last_set u ops)
unfolding run apply last_set is_banned set evict
run-Tells now u [] order = unfold lookup in tt
run-Tells now u (asked t v ∷ ops) order =
    Tells-later t now (lookup u (is_banned t v (run ops)).1) (last_set u ops) order.0 (
      asked-Tells t u v (run ops) (last_set u ops) (lookup v (run ops)) refl
        (run-Tells t u ops order.1))
run-Tells now u (stored t v b ∷ ops) order = elim (Bool-cases (str_eq v u)) [
  | inl same ↦ rw (lookup-insert, same) (refl, refl)
  | inr other ↦
      rw (lookup-insert, other)
        (Tells-later t now (lookup u (run ops)) (last_set u ops) order.0
          (run-Tells t u ops order.1))
]
run-Tells now u (evicted v ∷ ops) order = elim (Bool-cases (str_eq v u)) [
  | inl same ↦ rw (lookup-delete, same) tt
  | inr other ↦ rw (lookup-delete, other) (run-Tells now u ops order)
]

answer :
    (now : ℕ) (u : String) (c : BannedCache) (o : Option BannedEntry) (s : Option (ℕ × Bool))
    → Tells now o s
    → (is_banned_entry now u c o).0 ≡ fresh now s
answer now u c none none h = refl
answer now u c none (some (t, b)) h = ground arith
answer now u c (some e) none h = absurd h
answer now u c (some e) (some (t, b)) h = ground arith

-- After any run of its operations, at times in order, the cache answers a question by its contract:
-- with the value of the latest `Set` of the user that no `Evict` follows, if that is at most 60
-- seconds old, and with a miss otherwise. Entries of other users, and those that it drops, change
-- no answer.
pub is_banned-eq-fresh :
    (now : ℕ) (u : String) (ops : List Op)
    → InOrder now ops
    → (is_banned now u (run ops)).0 ≡ fresh now (last_set u ops)
unfolding is_banned
is_banned-eq-fresh now u ops order =
    answer now u (run ops) (lookup u (run ops)) (last_set u ops) (run-Tells now u ops order)
