-- ===== src/BigEndian.antt =====
-- encoding/binary's BigEndian, as grpc.go and push.go use it: a uint16 or a uint32 in network
-- order.
use google_find_my_tools_go.Prelude.{ℕ, ◌+◌, ◌*◌, ◌/◌, ◌%◌, ◌^◌, ◌<◌, ◌≡◌, arith}
use google_find_my_tools_go.Prelude.{List, [], ◌∷◌, ◌++◌, IsBytes, length}

-- PutUint32 of a value below 2 ^ 32.
unfoldable pub put_uint32 : ℕ → List ℕ
put_uint32 v = v / 2 ^ 24 % 256 ∷ v / 2 ^ 16 % 256 ∷ v / 2 ^ 8 % 256 ∷ v % 256 ∷ []

-- Uint32 reads the first four bytes. On fewer Go panics; every caller passes four.
unfoldable pub uint32_of : List ℕ → ℕ
uint32_of (a ∷ b ∷ c ∷ d ∷ _) = a * 2 ^ 24 + b * 2 ^ 16 + c * 2 ^ 8 + d
uint32_of _ = 0

-- AppendUint16 and Uint16.
unfoldable pub put_uint16 : ℕ → List ℕ
put_uint16 v = v / 2 ^ 8 % 256 ∷ v % 256 ∷ []

unfoldable pub uint16_of : List ℕ → ℕ
uint16_of (a ∷ b ∷ _) = a * 2 ^ 8 + b
uint16_of _ = 0

-- big.Int SetBytes: any number of bytes, most significant first.
unfoldable pub set_bytes : List ℕ → ℕ
set_bytes [] = 0
set_bytes (b ∷ bs) = b * 256 ^ length bs + set_bytes bs

pub uint32_of-put_uint32 : (v : ℕ) → v < 2 ^ 32 → uint32_of (put_uint32 v) ≡ v
unfolding uint32_of put_uint32
uint32_of-put_uint32 v h = omega arith

-- The four bytes of a value given by its bytes.
module _ (a b c d : ℕ) (h : IsBytes (a ∷ b ∷ c ∷ d ∷ [])) where
  abbrev value : ℕ
  value = a * 2 ^ 24 + b * 2 ^ 16 + c * 2 ^ 8 + d

  byte_three : value / 2 ^ 24 % 256 ≡ a
  byte_three = omega arith

  byte_two : value / 2 ^ 16 % 256 ≡ b
  byte_two = omega arith

  byte_one : value / 2 ^ 8 % 256 ≡ c
  byte_one = omega arith

  byte_zero : value % 256 ≡ d
  byte_zero = omega arith

pub put_uint32-uint32_of :
    (a b c d : ℕ)
    → IsBytes (a ∷ b ∷ c ∷ d ∷ [])
    → put_uint32 (uint32_of (a ∷ b ∷ c ∷ d ∷ [])) ≡ a ∷ b ∷ c ∷ d ∷ []
unfolding uint32_of put_uint32
put_uint32-uint32_of a b c d h =
    cc (byte_three a b c d h, byte_two a b c d h, byte_one a b c d h, byte_zero a b c d h)

pub uint32_of-lt :
    (a b c d : ℕ) → IsBytes (a ∷ b ∷ c ∷ d ∷ []) → uint32_of (a ∷ b ∷ c ∷ d ∷ []) < 2 ^ 32
unfolding uint32_of
uint32_of-lt a b c d h = omega arith

pub uint16_of-put_uint16 :
    (v : ℕ) (rest : List ℕ) → v < 2 ^ 16 → uint16_of (put_uint16 v ++ rest) ≡ v
unfolding uint16_of put_uint16
uint16_of-put_uint16 v rest h = omega arith

put_uint32-IsBytes : (v : ℕ) → IsBytes (put_uint32 v)
unfolding put_uint32
put_uint32-IsBytes v = omega arith
