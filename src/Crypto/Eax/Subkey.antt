-- ===== src/Crypto/Eax/Subkey.antt =====
-- The subkeys of CMAC are doublings in the field of 2 ^ 128 elements.
use google_find_my_tools_go.Prelude.{
  ℕ, suc, ◌+◌, ◌*◌, ◌/◌, ◌%◌, ◌^◌, ◌≤◌, ◌<◌, ◌≡◌, refl, sym, ap, arith,
}
use google_find_my_tools_go.Prelude.{List, [], ◌∷◌, length, IsBytes}
use native.Mathlib.Nat.{pow-suc, mul-le-mul_right, mod-eq_of_lt, add-mul-mod_self_right}
use google_find_my_tools_go.Prelude.Bits.{or_carry}
use google_find_my_tools_go.BigEndian.{set_bytes}
use google_find_my_tools_go.Crypto.Aes.{block_size}
use google_find_my_tools_go.Crypto.Aes.Laws.{length-xor_bytes}
use google_find_my_tools_go.Crypto.Eax.{shift_loop, shift_left, subkey, rb128}

length-shift_loop : (b : List ℕ) → length (shift_loop b).0 ≡ length b
unfolding shift_loop
length-shift_loop [] = refl
length-shift_loop (x ∷ b) = ap suc (length-shift_loop b)

pub length-shift_left : (b : List ℕ) → length (shift_left b) ≡ length b
unfolding shift_left
length-shift_left b = length-shift_loop b

pub length-subkey : (b : List ℕ) → length b ≡ block_size → length (subkey b) ≡ block_size
unfolding subkey
length-subkey b h = ground (arith, length-shift_left b, length-xor_bytes (shift_left b) rb128)

-- What the loop of shiftLeft has done when it has passed the bytes `b`.
abbrev Shifted : List ℕ → List ℕ × ℕ → Type 0
Shifted b r = (r.1 ≤ 1) × (set_bytes r.0 + r.1 * 256 ^ length b ≡ 2 * set_bytes b)

shift_loop-Shifted : (b : List ℕ) → IsBytes b → Shifted b (shift_loop b)
unfolding shift_loop set_bytes
shift_loop-Shifted [] h = (omega arith, omega arith)
shift_loop-Shifted (x ∷ b) (hx, hb) =
    let (small, sum) = shift_loop-Shifted b hb in
    (
      omega arith,
      rw (or_carry x (shift_loop b).1 hx small, length-shift_loop b)
          (omega (
            arith,
            sum,
            ap (λ (t : ℕ). t * 256 ^ length b) {y = 256 * (x / 128) + x * 2 % 256} (double x),
            pow-suc 256 (length b),
            ap (λ (t : ℕ). x / 128 * t) (pow-suc 256 (length b)),
          )),
    )
  where
    double : (y : ℕ) → y * 2 ≡ 256 * (y / 128) + y * 2 % 256
    double y = omega arith

set_bytes-lt : (b : List ℕ) → IsBytes b → set_bytes b < 256 ^ length b
unfolding set_bytes
set_bytes-lt [] h = omega arith
set_bytes-lt (x ∷ b) (hx, hb) =
    omega (arith, set_bytes-lt b hb, pow-suc 256 (length b), mul-le-mul_right (256 ^ length b) top)
  where
    top : x ≤ 255
    top = omega arith

shift_loop-IsBytes : (b : List ℕ) → IsBytes b → IsBytes (shift_loop b).0
unfolding shift_loop
shift_loop-IsBytes [] h = tt
shift_loop-IsBytes (x ∷ b) (hx, hb) = (
  rw (or_carry x (shift_loop b).1 hx (shift_loop-Shifted b hb).0)
      (omega (arith, (shift_loop-Shifted b hb).0)),
  shift_loop-IsBytes b hb,
)

-- shiftLeft doubles a big-endian number of any number of bytes, modulo 256 to that number.
pub shift_left_doubles :
    (b : List ℕ) → IsBytes b → set_bytes (shift_left b) ≡ 2 * set_bytes b % 256 ^ length b
unfolding shift_left
shift_left_doubles b h =
    rw (← (shift_loop-Shifted b h).1, add-mul-mod_self_right) (sym (mod-eq_of_lt below))
  where
    below : set_bytes (shift_loop b).0 < 256 ^ length b
    below = rw (← length-shift_loop b) (set_bytes-lt (shift_loop b).0 (shift_loop-IsBytes b h))
