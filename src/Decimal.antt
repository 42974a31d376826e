-- ===== src/Decimal.antt =====
-- fmt's %d and %x of the integers that the source prints, and strconv.Atoi, on bytes.
use google_find_my_tools_go.Prelude.{
  ℕ, zero, suc, ◌+◌, ◌-◌, ◌*◌, ◌/◌, ◌%◌, ◌^◌, ◌&&◌, List, [], ◌∷◌, Option, none, some, ltb, leb,
  ◌==◌, if◌then◌else◌,
}
pub mod Read

abbrev pub digit : ℕ → ℕ
digit d = if ltb d 10 then d + b'0' else d - 10 + b'a'

-- The digits in front of those already printed. `fuel` bounds their number.
unfoldable pub digits_loop : ℕ → ℕ → ℕ → List ℕ → List ℕ
digits_loop zero base n out = out
digits_loop (suc fuel) base n out =
    let rest = digits_loop fuel base (n / base) (digit (n % base) ∷ out) in
    if ltb n base then digit n ∷ out else rest

-- %d of a uint64, which has at most 20 digits, and %x, at most 16.
unfoldable pub format_decimal : ℕ → List ℕ
unfolding digits_loop
format_decimal n = digits_loop 20 10 n []

unfoldable pub format_hex : ℕ → List ℕ
unfolding digits_loop
format_hex n = digits_loop 16 16 n []

-- %d of an int64 given by its two's complement pattern.
unfoldable pub format_int64 : ℕ → List ℕ
format_int64 n = if ltb n (2 ^ 63) then format_decimal n else b'-' ∷ format_decimal (2 ^ 64 - n)

-- The digits of strconv.Atoi behind `n`.
unfoldable pub atoi_digits : ℕ → List ℕ → Option ℕ
atoi_digits n [] = some n
atoi_digits n (c ∷ s) =
    let rest = atoi_digits (n * 10 + (c - b'0')) s in
    if leb b'0' c && leb c b'9' then rest else none

-- Digits without a sign, one at least.
abbrev pub atoi_number : List ℕ → Option ℕ
atoi_number [] = none
atoi_number (c ∷ s) = atoi_digits 0 (c ∷ s)

abbrev pub at_most : ℕ → Option ℕ → Option ℕ
at_most bound none = none
at_most bound (some n) = if leb n bound then some n else none

abbrev pub negated : Option ℕ → Option ℕ
negated none = none
negated (some zero) = some 0
negated (some (suc n)) = some (2 ^ 64 - suc n)

-- strconv.Atoi: the pattern of an int of 64 bits, `none` on an error.
unfoldable pub atoi : List ℕ → Option ℕ
unfolding atoi_digits
atoi [] = none
atoi (c ∷ s) =
    if c == b'-'
    then negated (at_most (2 ^ 63) (atoi_number s))
    else if c == b'+'
    then at_most (2 ^ 63 - 1) (atoi_number s)
    else at_most (2 ^ 63 - 1) (atoi_number (c ∷ s))
