-- ===== src/Crypto/Curve.antt =====
-- pkg/googlefindmy/crypto/secp160r1.go: the curve parameters and the lifting of an x-coordinate.
use google_find_my_tools_go.Prelude.{
  ℕ, ◌+◌, ◌-◌, ◌*◌, ◌/◌, ◌%◌, Option, none, some, List, not, leb, ◌==◌,
}
use google_find_my_tools_go.Prelude.{if◌then◌else◌}
use google_find_my_tools_go.BigEndian.{set_bytes}
use google_find_my_tools_go.Crypto.BigInt.{mod_pow}
pub mod Lift

abbrev pub curve_p : ℕ
curve_p = 0xffffffffffffffffffffffffffffffff7fffffff

abbrev pub curve_n : ℕ
curve_n = 0x100000000000000000001f4c8f927aed3ca752257

abbrev pub curve_b : ℕ
curve_b = 0x1c97befc54bd7a8b65acf89f81d4d4adc565fa45

abbrev pub curve_gx : ℕ
curve_gx = 0x4a96b5688ef573284664698968c38bb913cbfc82

abbrev pub curve_gy : ℕ
curve_gy = 0x23a628553168947d59dcc912042351377ac5fb32

-- x^3 - 3x + b modulo p. The Euclidean remainder of -3x is what is missing from 3x to a multiple.
unfoldable pub curve_rhs : ℕ → ℕ
curve_rhs x = (mod_pow x 3 curve_p + (curve_p - 3 * x % curve_p) % curve_p + curve_b) % curve_p

-- `none` is the pair of nils.
unfoldable pub point_from_x : List ℕ → Option (ℕ × ℕ)
unfolding curve_rhs
point_from_x bytes =
    let x = set_bytes bytes in
    let yy = curve_rhs x in
    let y = mod_pow yy ((curve_p + 1) / 4) curve_p in
    if leb curve_p x
    then none
    else if not (y * y % curve_p == yy)
    then none
    else some (x, if y % 2 == 1 then curve_p - y else y)
