-- ===== src/Db/Order.antt =====
-- ORDER BY: rows sorted by a test; the rows that it does not tell apart stand in an order that
-- PostgreSQL leaves open, given by a rank for each row.
use screenspace.Base.{
  ℕ, leb, suc, ◌≡◌, refl, ap, Bool, true, false, List, [], ◌∷◌, arith, if◌then◌else◌, length, All,
  ◌∙◌, Bool-cases, inl, inr,
}

module _ {A : Type 0} (le : A → A → Bool) where
  unfoldable pub insert_by : A → List A → List A
  insert_by x [] = x ∷ []
  insert_by x (y ∷ ys) = let rest = insert_by x ys in if le x y then x ∷ y ∷ ys else y ∷ rest

  unfoldable pub sort_by : List A → List A
  unfolding insert_by
  sort_by [] = []
  sort_by (x ∷ xs) = insert_by x (sort_by xs)

  pub length-insert_by : (x : A) (xs : List A) → length (insert_by x xs) ≡ suc (length xs)
  unfolding insert_by
  length-insert_by x [] = refl
  length-insert_by x (y ∷ ys) = ground (arith, length-insert_by x ys)

  -- Sorting keeps the number of rows.
  length-sort_by : (xs : List A) → length (sort_by xs) ≡ length xs
  unfolding sort_by
  length-sort_by [] = refl
  length-sort_by (x ∷ xs) = length-insert_by x (sort_by xs) ∙ ap suc (length-sort_by xs)

  module _ (P : A → Type 0) where
    insert_by-All : (x : A) (xs : List A) → P x → All P xs → All P (insert_by x xs)
    unfolding insert_by
    insert_by-All x [] p h = (p, tt)
    insert_by-All x (y ∷ ys) p h = ground (arith, insert_by-All x ys p h.1)

    sort_by-All : (xs : List A) → All P xs → All P (sort_by xs)
    unfolding sort_by
    sort_by-All [] h = tt
    sort_by-All (x ∷ xs) h = insert_by-All x (sort_by xs) h.0 (sort_by-All xs h.1)

-- Each row may stand before every later one.
abbrev pub IsOrdered : {A : Type 0} → (A → A → Bool) → List A → Type 0
IsOrdered le [] = Unit
IsOrdered le (x ∷ xs) = All (λ y. le x y ≡ true) xs × IsOrdered le xs

module _ {A : Type 0} (le : A → A → Bool) (total : (x y : A) → le x y ≡ false → le y x ≡ true)
    (transitive : (x y z : A) → le x y ≡ true → le y z ≡ true → le x z ≡ true) where
  All-weaken :
      (x y : A) (zs : List A)
      → le x y ≡ true
      → All (λ z. le y z ≡ true) zs
      → All (λ z. le x z ≡ true) zs
  All-weaken x y [] h k = tt
  All-weaken x y (z ∷ zs) h k = (transitive x y z h k.0, All-weaken x y zs h k.1)

  insert_by-IsOrdered : (x : A) (xs : List A) → IsOrdered le xs → IsOrdered le (insert_by le x xs)
  unfolding insert_by
  insert_by-IsOrdered x [] h = (tt, tt)
  insert_by-IsOrdered x (y ∷ ys) h = elim (Bool-cases (le x y)) [
    | inl first ↦ rw first ((first, All-weaken x y ys first h.0), h)
    | inr later ↦ rw later (
      insert_by-All le (λ z. le y z ≡ true) x ys (total x y later) h.0,
      insert_by-IsOrdered x ys h.1,
    )
  ]

  sort_by-IsOrdered : (xs : List A) → IsOrdered le (sort_by le xs)
  unfolding sort_by
  sort_by-IsOrdered [] = tt
  sort_by-IsOrdered (x ∷ xs) = insert_by-IsOrdered x (sort_by le xs) (sort_by-IsOrdered xs)

module _ {A : Type 0} (rank : A → ℕ) where
  abbrev lower_rank : A → A → Bool
  lower_rank x y = leb (rank x) (rank y)

  -- Sorting by the rank first leaves rows that `le` does not tell apart in its order.
  unfoldable pub order_by : (A → A → Bool) → List A → List A
  unfolding sort_by
  order_by le xs = sort_by le (sort_by lower_rank xs)

  module _ (le : A → A → Bool) where
    -- Sorting keeps the number of rows.
    pub length-order_by : (xs : List A) → length (order_by le xs) ≡ length xs
    unfolding order_by
    length-order_by xs = length-sort_by le (sort_by lower_rank xs) ∙ length-sort_by lower_rank xs

    pub order_by-All : (P : A → Type 0) (xs : List A) → All P xs → All P (order_by le xs)
    unfolding order_by
    order_by-All P xs h = sort_by-All le P (sort_by lower_rank xs) (sort_by-All lower_rank P xs h)

    pub order_by-IsOrdered :
        ((x y : A) → le x y ≡ false → le y x ≡ true)
        → ((x y z : A) → le x y ≡ true → le y z ≡ true → le x z ≡ true)
        → (xs : List A) → IsOrdered le (order_by le xs)
    unfolding order_by
    order_by-IsOrdered total transitive xs =
        sort_by-IsOrdered le total transitive (sort_by lower_rank xs)
