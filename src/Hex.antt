-- ===== src/Hex.antt =====
-- encoding/hex: two digits for a byte.
use google_find_my_tools_go.Prelude.{
  ℕ, ◌+◌, ◌*◌, ◌/◌, ◌%◌, ◌<◌, ◌≡◌, refl, List, [], ◌∷◌, All, Option, none, some, arith,
}
use google_find_my_tools_go.Decimal.{digit}
use google_find_my_tools_go.Url.{hex_value}

-- hex.EncodeToString
unfoldable pub encode_hex : List ℕ → List ℕ
encode_hex [] = []
encode_hex (b ∷ s) = digit (b / 16) ∷ digit (b % 16) ∷ encode_hex s

abbrev joined_pair : Option ℕ → Option ℕ → Option (List ℕ) → Option (List ℕ)
joined_pair (some h) (some l) (some rest) = some ((h * 16 + l) ∷ rest)
joined_pair (some h) (some l) none = none
joined_pair (some h) none rest = none
joined_pair none l rest = none

-- hex.DecodeString, `none` on an error.
unfoldable pub decode_hex : List ℕ → Option (List ℕ)
decode_hex [] = some []
decode_hex (h ∷ []) = none
decode_hex (h ∷ l ∷ s) = joined_pair (hex_value h) (hex_value l) (decode_hex s)

digit-lt : (d : ℕ) → d < 16 → digit d < 128
digit-lt d small = ground arith

-- The digits are ASCII.
pub encode_hex-All : (s : List ℕ) → All (λ b. b < 256) s → All (λ b. b < 128) (encode_hex s)
unfolding encode_hex
encode_hex-All [] bytes = tt
encode_hex-All (b ∷ s) (small, bytes) =
    (digit-lt (b / 16) (omega arith), (digit-lt (b % 16) (omega arith), encode_hex-All s bytes))

hex_value-digit : (d : ℕ) → d < 16 → hex_value (digit d) ≡ some d
unfolding hex_value
hex_value-digit d small = ground arith

-- DecodeString reads back what EncodeToString writes of bytes.
pub decode_hex-encode_hex : (s : List ℕ) → All (λ b. b < 256) s → decode_hex (encode_hex s) ≡ some s
unfolding encode_hex decode_hex
decode_hex-encode_hex [] bytes = refl
decode_hex-encode_hex (b ∷ s) (small, bytes) =
    let same : b / 16 * 16 + b % 16 ≡ b = omega arith in
    rw
      (
        hex_value-digit (b / 16) (omega arith),
        hex_value-digit (b % 16) (omega arith),
        decode_hex-encode_hex s bytes,
        same,
      )
      refl
