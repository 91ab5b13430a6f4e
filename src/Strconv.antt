-- ===== src/Strconv.antt =====
-- The functions of Go's strconv and fmt that the program calls, on the texts that it passes:
-- `Atoi`, `ParseInt(s, 10, 64)`, `ParseBool`, `Sscanf(s, "%d", &n)`, and `%d` of `Sprintf`.
pub mod Decimal
use Prim.Native.Char.{code}
use Prim.Native.String.{◌++◌ as append}
use screenspace.Base.{
  ℕ, zero, suc, ◌+◌, ◌-◌, ◌*◌, ◌/◌, ◌%◌, ◌^◌, String, Bool, true, false, ◌&&◌, ◌||◌, Option, none,
  some, List, [], ◌∷◌, ℤ, pos, negsuc, ltb, leb, ◌==◌, if◌then◌else◌, str_eq, any, of_neg,
}

-- The characters of a text, by number.
abbrev pub codes : String → List ℕ
codes String.[] = []
codes (String.◌∷◌ c s) = code c ∷ codes s

abbrev pub is_digit : ℕ → Bool
is_digit c = leb b'0' c && leb c b'9'

-- The number that decimal digits spell behind `n`; no value for any other character.
unfoldable pub digits_value : ℕ → List ℕ → Option ℕ
digits_value n [] = some n
digits_value n (c ∷ cs) =
    let rest = digits_value (n * 10 + (c - b'0')) cs in if is_digit c then rest else none

abbrev pub max_int64 : ℕ
max_int64 = 2 ^ 63 - 1

-- At least one digit, and a value that 64 bits hold.
abbrev signed : Bool → Option ℕ → Option ℤ
signed negative none = none
signed false (some n) = if leb n max_int64 then some (pos n) else none
signed true (some n) = if leb n (max_int64 + 1) then some (of_neg n) else none

abbrev unsigned_digits : List ℕ → Option ℕ
unsigned_digits [] = none
unsigned_digits (c ∷ cs) = digits_value 0 (c ∷ cs)

-- `strconv.ParseInt(s, 10, 64)`, on the characters of the text.
unfoldable pub parse_int_codes : List ℕ → Option ℤ
unfolding digits_value
parse_int_codes [] = none
parse_int_codes (c ∷ cs) =
    if c == b'-'
    then signed true (unsigned_digits cs)
    else if c == b'+'
    then signed false (unsigned_digits cs)
    else signed false (unsigned_digits (c ∷ cs))

-- `strconv.ParseInt(s, 10, 64)` and `strconv.Atoi`, which agree where an `int` has 64 bits.
unfoldable pub parse_int : String → Option ℤ
unfolding parse_int_codes
parse_int s = parse_int_codes (codes s)

-- `strconv.ParseBool`
unfoldable pub parse_bool : String → Option Bool
parse_bool s =
    if any (str_eq s) ("1" ∷ "t" ∷ "T" ∷ "TRUE" ∷ "true" ∷ "True" ∷ [])
    then some true
    else if any (str_eq s) ("0" ∷ "f" ∷ "F" ∷ "FALSE" ∷ "false" ∷ "False" ∷ [])
    then some false
    else none

-- The spaces that a scan skips; a line feed is not one of them.
abbrev is_space : ℕ → Bool
is_space c =
    c == 9
    || (leb 11 c && leb c 13)
    || c == 0x20
    || c == 0x85
    || c == 0xa0
    || c == 0x1680
    || (leb 0x2000 c && leb c 0x200a)
    || c == 0x2028
    || c == 0x2029
    || c == 0x202f
    || c == 0x205f
    || c == 0x3000

-- A carriage return before a line feed is skipped to the line feed, which is an error.
skip_space : List ℕ → Option (List ℕ)
skip_space [] = some []
skip_space (c ∷ cs) =
    let rest = skip_space cs in if c == 10 then none else if is_space c then rest else some (c ∷ cs)

-- The run of digits at the front.
take_digits : List ℕ → List ℕ
take_digits [] = []
take_digits (c ∷ cs) = let rest = take_digits cs in if is_digit c then c ∷ rest else []

-- The token of `%d`: a sign, if there is one, and digits.
int_token : List ℕ → List ℕ
unfolding take_digits
int_token [] = []
int_token (c ∷ cs) = if c == b'-' || c == b'+' then c ∷ take_digits cs else take_digits (c ∷ cs)

-- `fmt.Sscanf(s, "%d", &parsed)`: the value, or an error. What follows the number is not read.
unfoldable pub sscanf_int : String → Option ℤ
unfolding skip_space int_token parse_int_codes
sscanf_int s = elim (skip_space (codes s)) [
  | none ↦ none
  | some cs ↦ parse_int_codes (int_token cs)
]

digit : ℕ → String
digit d =
    if d == 0
    then "0"
    else if d == 1
    then "1"
    else if d == 2
    then "2"
    else if d == 3
    then "3"
    else if d == 4
    then "4"
    else if d == 5
    then "5"
    else if d == 6
    then "6"
    else if d == 7
    then "7"
    else if d == 8
    then "8"
    else "9"

-- The decimal digits of a number in front of a text; the fuel bounds their number.
decimal_from : ℕ → ℕ → String → String
unfolding digit
decimal_from zero n tail = tail
decimal_from (suc f) n tail =
    let rest = decimal_from f (n / 10) (append (digit (n % 10)) tail) in
    if ltb n 10 then append (digit n) tail else rest

-- `%d`: a number has no more digits than its value and one.
unfoldable pub show_int : ℤ → String
unfolding decimal_from
show_int (pos n) = decimal_from (suc n) n ""
show_int (negsuc n) = append "-" (decimal_from (suc (suc n)) (suc n) "")

-- strings.HasPrefix and strings.TrimPrefix: what follows the prefix, if it is there.
abbrev pub after_prefix : String → String → Option String
after_prefix String.[] s = some s
after_prefix (String.◌∷◌ c p) String.[] = none
after_prefix (String.◌∷◌ c p) (String.◌∷◌ d s) = if code c == code d then after_prefix p s else none

-- strings.HasPrefix
abbrev pub has_prefix : String → String → Bool
has_prefix prefix s = elim (after_prefix prefix s) [ none ↦ false | some rest ↦ true ]
