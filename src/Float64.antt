-- ===== src/Float64.antt =====
-- Finite float64 values: what encoding/json makes of a number, and what the source does with it.
use google_find_my_tools_go.Prelude.{
  ℕ, zero, suc, ◌+◌, ◌-◌, ◌*◌, ◌/◌, ◌%◌, ◌^◌, Bool, false, not, ◌&&◌, ◌||◌, List, [], ◌∷◌, ◌++◌,
}
use google_find_my_tools_go.Prelude.{leb, ltb, ◌==◌, if◌then◌else◌}
use google_find_my_tools_go.Decimal.{digits_loop}

-- ± significand * 2 ^ shift / 2 ^ 1074: the significand has 53 bits, and the shift is at most 2045.
pub record Float64 : Type 0 where
  pub negative : Bool
  pub significand : ℕ
  pub shift : ℕ

abbrev pub zero_float : Float64
zero_float = record { negative = false; significand = 0; shift = 0 }

-- The absolute value, in units of 2 ^ -1074.
abbrev pub magnitude : Float64 → ℕ
magnitude x = x.significand * 2 ^ x.shift

abbrev pub unit : ℕ
unit = 2 ^ 1074

-- The absolute value, rounded towards zero.
abbrev pub whole : Float64 → ℕ
whole x = magnitude x / unit

abbrev pub fits_int64 : Bool → ℕ → Bool
fits_int64 negative n = if negative then leb n (2 ^ 63) else ltb n (2 ^ 63)

abbrev pub to_pattern : Bool → ℕ → ℕ
to_pattern negative n = if negative then (2 ^ 64 - n) % 2 ^ 64 else n

-- int64(x), by its two's complement pattern. Out of range the language leaves the value to the
-- implementation: it is that of amd64.
unfoldable pub to_int64 : Float64 → ℕ
to_int64 x = let n = whole x in if fits_int64 x.negative n then to_pattern x.negative n else 2 ^ 63

-- x == float64(int64(x)): an integer in the range of int64.
unfoldable pub is_int64 : Float64 → Bool
is_int64 x = magnitude x % unit == 0 && fits_int64 x.negative (whole x)

-- x < 0
abbrev pub below_zero : Float64 → Bool
below_zero x = x.negative && not (magnitude x == 0)

-- x >= n and x > n for a constant n that is not negative (n > 0 in the first)
abbrev pub at_least : Float64 → ℕ → Bool
at_least x n = not x.negative && leb (n * unit) (magnitude x)

abbrev pub more_than : Float64 → ℕ → Bool
more_than x n = not x.negative && ltb (n * unit) (magnitude x)

-- x > y
unfoldable pub greater : Float64 → Float64 → Bool
greater x y =
    if below_zero x
    then below_zero y && ltb (magnitude x) (magnitude y)
    else below_zero y || ltb (magnitude y) (magnitude x)

-- math.Trunc(x) == x
abbrev pub is_whole : Float64 → Bool
is_whole x = magnitude x % unit == 0

-- n / d to the nearest integer, to the even one of two that are as near.
abbrev pub round_even : ℕ → ℕ → ℕ
round_even n d =
    let q = n / d in let r = n % d in if ltb (2 * r) d || 2 * r == d && q % 2 == 0 then q else q + 1

-- The last `k` digits of a number, the zeros in front of them included.
abbrev pub last_digits : ℕ → ℕ → List ℕ → List ℕ
last_digits zero n out = out
last_digits (suc k) n out = last_digits k (n / 10) ((n % 10 + b'0') ∷ out)

-- fmt's %.6f: the integer part has at most 309 digits.
unfoldable pub format_fixed6 : Float64 → List ℕ
unfolding digits_loop
format_fixed6 x =
    let n = round_even (magnitude x * 10 ^ 6) unit in
    let digits = digits_loop 309 10 (n / 10 ^ 6) [] in
    (if x.negative then b'-' ∷ digits else digits) ++ b'.' ∷ last_digits 6 (n % 10 ^ 6) []

-- What strconv.ParseFloat returns: with the values that are not finite.
pub data Double : Type 0 where
  finite : Float64 → Double
  infinity : Bool → Double
  nan : Double

abbrev pub zero_double : Double
zero_double = finite zero_float

-- int64(x): out of range as above.
unfoldable pub double_to_int64 : Double → ℕ
unfolding to_int64
double_to_int64 (finite x) = to_int64 x
double_to_int64 _ = 2 ^ 63

-- x > n
abbrev pub double_more_than : Double → ℕ → Bool
double_more_than (finite x) n = more_than x n
double_more_than (infinity negative) n = not negative
double_more_than nan n = false

-- x / 1000 of an int64, by the patterns: rounded towards zero.
unfoldable pub int64_thousandth : ℕ → ℕ
int64_thousandth n = if ltb n (2 ^ 63) then n / 1000 else (2 ^ 64 - (2 ^ 64 - n) / 1000) % 2 ^ 64
