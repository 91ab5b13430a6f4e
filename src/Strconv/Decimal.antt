-- ===== src/Strconv/Decimal.antt =====
-- `%d` and `ParseInt` are inverse to each other on 64-bit integers.
use Prim.Native.Char.{Char, code}
use Prim.Native.String.{◌++◌ as append}
use Prim.Native.String.append
use screenspace.Base.{
  ℕ, zero, suc, ◌+◌, ◌*◌, ◌/◌, ◌%◌, ◌≤◌, ◌<◌, String, ◌≡◌, ◌≢◌, refl, ap, ◌∙◌, some, List, [], ◌∷◌,
  ℤ, pos, negsuc, ltb, arith, Bool-cases, inl, inr,
}
use screenspace.Strconv.{
  codes, digits_value, max_int64, unsigned_digits, parse_int_codes, parse_int, digit, decimal_from,
  show_int,
}

-- A text of one character in front of another.
codes-one :
    (c : Char) (tail : String) → codes (append (String.◌∷◌ c String.[]) tail) ≡ code c ∷ codes tail
codes-one c tail =
    ap codes (append.cons c String.[] tail ∙ ap (λ u. String.◌∷◌ c u) (append.nil tail))

-- A digit is one character.
codes-digit :
    (d : ℕ) (tail : String) → d < 10 → codes (append (digit d) tail) ≡ (48 + d) ∷ codes tail
unfolding digit
codes-digit zero tail h = codes-one "0" tail
codes-digit (suc zero) tail h = codes-one "1" tail
codes-digit (suc (suc zero)) tail h = codes-one "2" tail
codes-digit (suc (suc (suc zero))) tail h = codes-one "3" tail
codes-digit (suc (suc (suc (suc zero)))) tail h = codes-one "4" tail
codes-digit (suc (suc (suc (suc (suc zero))))) tail h = codes-one "5" tail
codes-digit (suc (suc (suc (suc (suc (suc zero)))))) tail h = codes-one "6" tail
codes-digit (suc (suc (suc (suc (suc (suc (suc zero))))))) tail h = codes-one "7" tail
codes-digit (suc (suc (suc (suc (suc (suc (suc (suc zero)))))))) tail h = codes-one "8" tail
codes-digit (suc (suc (suc (suc (suc (suc (suc (suc (suc zero))))))))) tail h = codes-one "9" tail
codes-digit (suc (suc (suc (suc (suc (suc (suc (suc (suc (suc d)))))))))) tail h =
    absurd (omega arith)

-- One more digit is read.
digits_value-digit :
    (n d : ℕ) (tail : String)
    → d < 10
    → digits_value n (codes (append (digit d) tail)) ≡ digits_value (n * 10 + d) (codes tail)
unfolding digits_value
digits_value-digit n d tail h = rw (codes-digit d tail h) (ground arith)

-- With enough fuel, the digits in front of a text are those of the number.
digits_value-decimal_from :
    (f n : ℕ) (tail : String)
    → n < f
    → digits_value 0 (codes (decimal_from f n tail)) ≡ digits_value n (codes tail)
unfolding decimal_from
digits_value-decimal_from zero n tail h = elim h [ ]
digits_value-decimal_from (suc f) n tail h = elim (Bool-cases (ltb n 10)) [
  | inl small ↦ rw small (
      digits_value-digit 0 n tail (ground arith)
      ∙ ap (λ (m : ℕ). digits_value m (codes tail)) (omega arith))
  | inr large ↦ rw large (
      digits_value-decimal_from f (n / 10) (append (digit (n % 10)) tail) (ground arith)
      ∙ digits_value-digit (n / 10) (n % 10) tail (omega arith)
      ∙ ap (λ (m : ℕ). digits_value m (codes tail)) (omega arith))
]

-- The text begins with a digit.
abbrev BeginsWithDigit : List ℕ → Type 0
BeginsWithDigit cs = (c : ℕ) × (rest : List ℕ) × (cs ≡ c ∷ rest) × (48 ≤ c)

decimal_from-BeginsWithDigit :
    (f n : ℕ) (tail : String) → n < f → BeginsWithDigit (codes (decimal_from f n tail))
unfolding decimal_from
decimal_from-BeginsWithDigit zero n tail h = elim h [ ]
decimal_from-BeginsWithDigit (suc f) n tail h = elim (Bool-cases (ltb n 10)) [
  | inl small ↦ rw small (48 + n, codes tail, codes-digit n tail (ground arith), omega arith)
  | inr large ↦
      rw large
        (decimal_from-BeginsWithDigit f (n / 10) (append (digit (n % 10)) tail) (ground arith))
]

-- The integers of 64 bits.
abbrev pub InInt64 : ℤ → Type 0
InInt64 (pos n) = n ≤ max_int64
InInt64 (negsuc n) = n ≤ max_int64

abbrev decimal : ℕ → String
decimal n = decimal_from (suc n) n ""

unsigned_digits-decimal : (n : ℕ) → unsigned_digits (codes (decimal n)) ≡ some n
unsigned_digits-decimal n =
    let (c, rest, e, digit) = decimal_from-BeginsWithDigit (suc n) n "" (omega arith) in
    let v = digits_value-decimal_from (suc n) n "" (omega arith) in
    let last : digits_value n (codes "") ≡ some n = unfold digits_value in refl in
    rw e (rw e at (v ∙ last))

parse_int_codes-pos : (n : ℕ) → n ≤ max_int64 → parse_int_codes (codes (decimal n)) ≡ some (pos n)
unfolding parse_int_codes
parse_int_codes-pos n h =
    let (c, rest, e, digit) = decimal_from-BeginsWithDigit (suc n) n "" (omega arith) in
    let u = rw e at (unsigned_digits-decimal n) in rw e (ground arith)

parse_int_codes-negsuc :
    (n : ℕ) → n ≤ max_int64 → parse_int_codes (b'-' ∷ codes (decimal (suc n))) ≡ some (negsuc n)
unfolding parse_int_codes
parse_int_codes-negsuc n h = rw (unsigned_digits-decimal (suc n)) (ground arith)

-- What `%d` prints of an integer of 64 bits, `ParseInt` reads as that integer.
pub parse_int-show_int : (a : ℤ) → InInt64 a → parse_int (show_int a) ≡ some a
unfolding parse_int show_int
parse_int-show_int (pos n) h = parse_int_codes-pos n h
parse_int-show_int (negsuc n) h = rw (codes-one "-" (decimal (suc n))) (parse_int_codes-negsuc n h)

pub show_int-ne-empty : (a : ℤ) → show_int a ≢ ""
unfolding show_int
show_int-ne-empty (pos n) q =
    let (c, rest, e, digit) = decimal_from-BeginsWithDigit (suc n) n "" (omega arith) in
    let e' : codes (decimal n) ≡ [] = ap codes q in absurd (cc)
show_int-ne-empty (negsuc n) q =
    let e : codes (append "-" (decimal (suc n))) ≡ [] = ap codes q in
    let e' = codes-one "-" (decimal (suc n)) in absurd (cc)
