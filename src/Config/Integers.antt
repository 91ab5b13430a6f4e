-- ===== src/Config/Integers.antt =====
-- The integers of the configuration, as texts of the environment.
use screenspace.Base.{ℕ, String, ◌≡◌, Option, some, ℤ, str_eq, false, str_eq_ne, refl}
use screenspace.Config.{env_int, env_int64}
use screenspace.Strconv.{parse_int, show_int}
use screenspace.Strconv.Decimal.{InInt64, parse_int-show_int, show_int-ne-empty}

-- A variable that holds the decimal text of an integer of 64 bits is read as that integer, whatever
-- the default is, by both readers of integers.
pub env_int-show_int :
    (getenv : String → String) (parse_float : String → Option ℕ)
    (parse_duration : String → Option ℤ) (key : String) (a def : ℤ)
    → getenv key ≡ show_int a
    → InInt64 a
    → (env_int getenv parse_float parse_duration key def ≡ a)
      × (env_int64 getenv parse_float parse_duration key def ≡ a)
unfolding env_int env_int64
env_int-show_int getenv parse_float parse_duration key a def e h =
    let set : str_eq (getenv key) "" ≡ false = rw e (str_eq_ne _ _ (show_int-ne-empty a)) in
    let read : parse_int (getenv key) ≡ some a = rw e (parse_int-show_int a h) in
    (rw (set, read) refl, rw (set, read) refl)
