-- ===== src/Fcm/Register/Flex.antt =====
-- flexUint64 of pkg/googlefindmy/fcm/register.go: a number, or a string with one.
use google_find_my_tools_go.Prelude.{
  ℕ, ◌^◌, ◌<◌, ◌≡◌, arith, Bool, true, false, not, ◌&&◌, ◌||◌, List, [], ◌∷◌, Option, none, some,
  ltb, ◌==◌, if◌then◌else◌, Result, ok, err,
}
use google_find_my_tools_go.GoErrors.{GoError, message}
use google_find_my_tools_go.Decimal.{atoi_digits, atoi_number, format_decimal}
use google_find_my_tools_go.Decimal.Read.{atoi_digits-format_decimal}

-- json.Unmarshal into a uint64 and into a string.
pub record FlexJson : Type 0 where
  pub unmarshal_uint64 : List ℕ → Result GoError ℕ
  pub unmarshal_text : List ℕ → Result GoError (List ℕ)

-- big.Int: whether it is written with a minus, and its absolute value.
abbrev pub signed : Bool → Option ℕ → Option (Bool × ℕ)
signed minus none = none
signed minus (some n) = some (minus, n)

-- SetString in base 10.
unfoldable pub set_string : List ℕ → Option (Bool × ℕ)
unfolding atoi_digits
set_string [] = none
set_string (c ∷ s) =
    if c == b'-'
    then signed true (atoi_number s)
    else if c == b'+'
    then signed false (atoi_number s)
    else signed false (atoi_number (c ∷ s))

abbrev pub is_uint64 : Bool → ℕ → Bool
is_uint64 minus n = (not minus || n == 0) && ltb n (2 ^ 64)

abbrev pub flex_of : Option (Bool × ℕ) → Result GoError ℕ
flex_of none = err (message "flexUint64: cannot parse")
flex_of (some (minus, n)) =
    if not (is_uint64 minus n) then err (message "flexUint64: value overflows uint64") else ok n

abbrev pub flex_text : Result GoError (List ℕ) → Result GoError ℕ
flex_text (err e) = err e
flex_text (ok s) = flex_of (set_string s)

abbrev pub number_or_text : FlexJson → List ℕ → Result GoError ℕ → Result GoError ℕ
number_or_text json b (ok n) = ok n
number_or_text json b (err e) = flex_text (json.unmarshal_text b)

-- UnmarshalJSON
unfoldable pub unmarshal_flex : FlexJson → List ℕ → Result GoError ℕ
unmarshal_flex json b = number_or_text json b (json.unmarshal_uint64 b)

set_string-digits :
    (c : ℕ) (s : List ℕ) (n : ℕ)
    → atoi_digits 0 (c ∷ s) ≡ some n
    → set_string (c ∷ s) ≡ some (false, n)
unfolding set_string atoi_digits
set_string-digits c s n h = ground arith

fits : (n : ℕ) → n < 2 ^ 64 → flex_of (some (false, n)) ≡ ok n
fits n bound = ground arith

-- The decimal text of a uint64 is read back from a string, as the Python library writes it.
pub unmarshal_flex-format_decimal :
    (json : FlexJson) (b : List ℕ) (e : GoError) (n : ℕ)
    → n < 2 ^ 64
    → json.unmarshal_uint64 b ≡ err e
    → json.unmarshal_text b ≡ ok (format_decimal n)
    → unmarshal_flex json b ≡ ok n
unfolding unmarshal_flex
unmarshal_flex-format_decimal json b e n bound no_number reads =
    let (c, s, same, digits) = atoi_digits-format_decimal n bound in
    rw (no_number, reads, same, set_string-digits c s n digits) (fits n bound)
