-- ===== src/Handler/Auth/Email.antt =====
-- The emails that `emailRe` of server/internal/handler/auth.go matches.
use screenspace.Base.{
  ℕ, ◌≡◌, ◌≢◌, ap, true, List, [], ◌∷◌, ◌++◌, ◌==◌, All, arith, Bool-cases, inl, inr,
}
use screenspace.Handler.Auth.{plain, inner_point, all_plain, domain, user_part, is_email}

-- Neither @ nor a space.
abbrev pub IsPlain : ℕ → Type 0
IsPlain c = (c ≢ b'@') × (c ≢ 9) × (c ≢ 10) × (c ≢ 12) × (c ≢ 13) × (c ≢ 0x20)

-- A text with a point that is neither its first nor its last character, and no @ or space.
abbrev pub IsDomain : List ℕ → Type 0
IsDomain cs =
    (first : ℕ) × (before : List ℕ) × (last : ℕ) × (after : List ℕ) × (cs
      ≡ first ∷ before ++ b'.' ∷ last ∷ after)
    × All IsPlain cs

-- A user, @, and a domain.
abbrev pub IsEmail : List ℕ → Type 0
IsEmail cs =
    (first : ℕ) × (user : List ℕ) × (host : List ℕ) × (cs ≡ first ∷ user ++ b'@' ∷ host)
    × All IsPlain (first ∷ user)
    × IsDomain host

plain-IsPlain : (c : ℕ) → plain c ≡ true → IsPlain c
plain-IsPlain c h = (
  λ e. ground (arith, h, e),
  λ e. ground (arith, h, e),
  λ e. ground (arith, h, e),
  λ e. ground (arith, h, e),
  λ e. ground (arith, h, e),
  λ e. ground (arith, h, e),
)

all_plain-IsPlain : (cs : List ℕ) → all_plain cs ≡ true → All IsPlain cs
unfolding all_plain
all_plain-IsPlain [] h = tt
all_plain-IsPlain (c ∷ cs) h =
    (plain-IsPlain c (ground (arith, h)), all_plain-IsPlain cs (ground (arith, h)))

inner_point-split :
    (cs : List ℕ)
    → inner_point cs ≡ true
    → (before : List ℕ) × (last : ℕ) × (after : List ℕ) × (cs ≡ before ++ b'.' ∷ last ∷ after)
unfolding inner_point
inner_point-split [] h = absurd (cc)
inner_point-split (c ∷ []) h = absurd (cc)
inner_point-split (c ∷ d ∷ cs) h = elim (Bool-cases (c == b'.')) [
  | inl here ↦ let e : c ≡ b'.' = ground (arith, here) in ([], d, cs, ap (λ x. x ∷ d ∷ cs) e)
  | inr later ↦
      let (before, last, after, split) = inner_point-split (d ∷ cs) (rw later at h) in
      (c ∷ before, last, after, ap (λ l. c ∷ l) split)
]

domain-IsDomain : (cs : List ℕ) → domain cs ≡ true → IsDomain cs
domain-IsDomain [] h = absurd (cc)
domain-IsDomain (c ∷ cs) h =
    let (before, last, after, split) = inner_point-split cs (ground (arith, h)) in
    (c, before, last, after, ap (λ l. c ∷ l) split, all_plain-IsPlain (c ∷ cs) (ground (arith, h)))

user_part-split :
    (cs : List ℕ)
    → user_part cs ≡ true
    → (user : List ℕ) × (host : List ℕ) × (cs ≡ user ++ b'@' ∷ host)
      × All IsPlain user
      × IsDomain host
unfolding user_part
user_part-split [] h = absurd (cc)
user_part-split (c ∷ cs) h = elim (Bool-cases (c == b'@')) [
  | inl sign ↦
      let e : c ≡ b'@' = ground (arith, sign) in
      ([], cs, ap (λ x. x ∷ cs) e, tt, domain-IsDomain cs (rw sign at h))
  | inr other ↦ elim (Bool-cases (plain c)) [
    | inl ordinary ↦
        let (user, host, split, users, is_domain) =
          user_part-split cs (ground (arith, h, other, ordinary)) in
        (c ∷ user, host, ap (λ l. c ∷ l) split, (plain-IsPlain c ordinary, users), is_domain)
    | inr strange ↦ absurd (ground (arith, h, other, strange))
  ]
]

-- What the expression matches is such an email.
pub is_email-IsEmail : (cs : List ℕ) → is_email cs ≡ true → IsEmail cs
unfolding is_email
is_email-IsEmail [] h = absurd (cc)
is_email-IsEmail (c ∷ cs) h =
    let (user, host, split, users, is_domain) = user_part-split cs (ground (arith, h)) in
    (c, user, host, ap (λ l. c ∷ l) split, (plain-IsPlain c (ground (arith, h)), users), is_domain)
