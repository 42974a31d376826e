-- ===== src/Crypto/Eid.antt =====
-- pkg/googlefindmy/crypto/eid.go: ephemeral identifiers. The scalar multiplication of
-- crypto/elliptic is a parameter, as is the block cipher.
use Prim.Native.String.{String}
use google_find_my_tools_go.Prelude.{ℕ, ◌*◌, ◌/◌, ◌%◌, ◌^◌, Option, none, some, not, ◌==◌}
use google_find_my_tools_go.Prelude.{List, [], ◌∷◌, ◌++◌, length, replicate, if◌then◌else◌}
use google_find_my_tools_go.Prelude.{Result, ok, err, ◌>>=◌, ◌>>◌, fail_if, wrap_err}
use google_find_my_tools_go.GoErrors.{GoError, message, wrapped}
use google_find_my_tools_go.BigEndian.{put_uint32, set_bytes}
use google_find_my_tools_go.Crypto.Aes.{BlockCipher}
use google_find_my_tools_go.Crypto.Eax.{aes_ecb_encrypt}
use google_find_my_tools_go.Crypto.BigInt.{fill_bytes}
use google_find_my_tools_go.Crypto.Curve.{curve_n}
pub mod Rotation

-- CurveParams.ScalarBaseMult and ScalarMult over secp160r1: `none` stands for nil coordinates.
pub record Multiplication : Type 0 where
  pub scalar_base_mult : ℕ → Option (ℕ × ℕ)
  pub scalar_mult : ℕ × ℕ → ℕ → Option (ℕ × ℕ)

abbrev pub eidk : ℕ
eidk = 10

-- The int64 timestamp is given by its two's complement pattern below 2 ^ 64: the and with the mask
-- clears the low k bits, and the four bytes are the low 32 bits, most significant first.
unfoldable pub masked_timestamp : ℕ → ℕ → List ℕ
masked_timestamp timestamp k = put_uint32 (timestamp / 2 ^ k * 2 ^ k)

-- The 32-byte structure that is encrypted.
unfoldable pub eid_block : ℕ → List ℕ
eid_block timestamp =
    let ts = masked_timestamp timestamp eidk in
    replicate 11 0xff ++ eidk ∷ ts ++ replicate 11 0 ++ eidk ∷ ts

abbrev pub bad_identity_key : GoError
bad_identity_key = message "crypto: identity key must be 32 bytes"

unfoldable pub calculate_r : BlockCipher → List ℕ → ℕ → Result GoError ℕ
unfolding eid_block
calculate_r aes identity_key timestamp = do
  fail_if (not (length identity_key == 32)) bad_identity_key
  r_dash ← wrap_err (wrapped "crypto: eid") (aes_ecb_encrypt aes identity_key (eid_block timestamp))
  ok (set_bytes r_dash % curve_n)

-- A pair of coordinates, or the error for nil.
abbrev pub finite_point : String → Option (ℕ × ℕ) → Result GoError (ℕ × ℕ)
finite_point text none = err (message text)
finite_point text (some p) = ok p

unfoldable pub generate_eid : BlockCipher → Multiplication → List ℕ → ℕ → Result GoError (List ℕ)
generate_eid aes curve identity_key timestamp = do
  r ← calculate_r aes identity_key timestamp
  fail_if (r == 0) (message "crypto: eid: derived scalar is zero")
  p ← finite_point "crypto: eid: r*G is the point at infinity" (curve.scalar_base_mult r)
  ok (fill_bytes 20 p.0)
