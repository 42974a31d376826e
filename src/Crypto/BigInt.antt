-- ===== src/Crypto/BigInt.antt =====
-- math/big, as the source uses it on values that are never negative: Exp with a modulus, FillBytes.
use mathlib.Core.WellFounded.{Acc}
use native.Mathlib.Nat.{
  pow-suc, mod-lt, mod-eq_of_lt, mul-le-mul_right, div-add-mod, one-le-pow, mul_comm, pow-zero,
}
use native.Mathlib.Bridge.{le_prop}
use mathlib.Core.Logic.{dif_pos, dif_neg}
use native.Mathlib.Nat.{add-mul-mod_self_right}
use google_find_my_tools_go.Prelude.{
  ℕ, zero, suc, ◌+◌, ◌*◌, ◌/◌, ◌%◌, ◌^◌, ◌≤◌, ◌<◌, ◌≡◌, refl, sym, ap, ◌∙◌, arith,
}
use google_find_my_tools_go.Prelude.{
  List, [], ◌∷◌, length, dite, dec_lt, if◌then◌else◌, ◌==◌, ==_iff, IsBytes, Bool-cases, inl, inr,
  false,
}
use google_find_my_tools_go.Prelude.Order.{lt_wf}
use google_find_my_tools_go.BigEndian.{set_bytes}

pub halved : (e : ℕ) → 0 < e → e / 2 < e
halved e h = omega arith

-- Square and multiply, on the binary digits of the exponent.
pub mod_pow_loop : (m base e : ℕ) → Acc ◌<◌ e → ℕ
mod_pow_loop m base e (Acc.intro _ smaller) =
    dite (dec_lt 0 e)
      (λ h.
        let rest = mod_pow_loop m (base * base % m) (e / 2) (smaller _ (halved e h)) in
        if e % 2 == 0 then rest else base * rest % m)
      (λ _. 1 % m)

-- Exp(base, e, m)
unfoldable pub mod_pow : ℕ → ℕ → ℕ → ℕ
unfolding mod_pow_loop lt_wf dec_lt
mod_pow base e m = mod_pow_loop m base e (lt_wf.apply e)

-- FillBytes into `n` bytes of a value that fits.
unfoldable pub fill_bytes : ℕ → ℕ → List ℕ
fill_bytes zero x = []
fill_bytes (suc n) x = x / 256 ^ n % 256 ∷ fill_bytes n x

pub length-fill_bytes : (n x : ℕ) → length (fill_bytes n x) ≡ n
unfolding fill_bytes
length-fill_bytes zero x = refl
length-fill_bytes (suc n) x = ap suc (length-fill_bytes n x)

pub fill_bytes-IsBytes : (n x : ℕ) → IsBytes (fill_bytes n x)
unfolding fill_bytes
fill_bytes-IsBytes zero x = tt
fill_bytes-IsBytes (suc n) x = (omega arith, fill_bytes-IsBytes n x)

-- A number modulo 256 ^ (n + 1) is its digit number `n` and the digits below.
module _ (n x : ℕ) where
  abbrev place : ℕ
  place = 256 ^ n

  abbrev below : ℕ
  below = x / place % 256 * place + x % place

  below-lt : below < 256 ^ suc n
  below-lt = omega (
    arith,
    pow-suc 256 n,
    mul-le-mul_right place digit,
    mod-lt x (one-le-pow n 256 (omega arith)),
  )
    where
      digit : x / place % 256 ≤ 255
      digit = omega arith

  split : x ≡ below + x / place / 256 * 256 ^ suc n
  split = omega (
    arith,
    div-add-mod x place,
    ap (λ (t : ℕ). place * t) (div-add-mod (x / place) 256),
    ap (λ (t : ℕ). x / place / 256 * t) (pow-suc 256 n),
  )

  digit_below : below ≡ x % 256 ^ suc n
  digit_below = sym (
      ap (λ (t : ℕ). t % 256 ^ suc n) split
      ∙ add-mul-mod_self_right below (x / place / 256) (256 ^ suc n)
      ∙ mod-eq_of_lt below-lt)

set_bytes-fill_bytes_mod : (n x : ℕ) → set_bytes (fill_bytes n x) ≡ x % 256 ^ n
unfolding set_bytes fill_bytes
set_bytes-fill_bytes_mod zero x = omega arith
set_bytes-fill_bytes_mod (suc n) x =
    rw (length-fill_bytes n x, set_bytes-fill_bytes_mod n x) (digit_below n x)

-- A number that fits is read back from its bytes.
pub set_bytes-fill_bytes : (n x : ℕ) → x < 256 ^ n → set_bytes (fill_bytes n x) ≡ x
set_bytes-fill_bytes n x h = set_bytes-fill_bytes_mod n x ∙ mod-eq_of_lt h

mul-mod_left_factor : (m a b : ℕ) → a % m * b % m ≡ a * b % m
mul-mod_left_factor m a b = sym (
    ap (λ (t : ℕ). t % m) (omega (arith, ap (λ (t : ℕ). t * b) (div-add-mod a m)))
    ∙ add-mul-mod_self_right (a % m * b) (a / m * b) m)

mul-mod_right_factor : (m a b : ℕ) → a * (b % m) % m ≡ a * b % m
mul-mod_right_factor m a b =
    ap (λ (t : ℕ). t % m) (mul_comm a (b % m))
    ∙ mul-mod_left_factor m b a
    ∙ ap (λ (t : ℕ). t % m) (mul_comm b a)

pow-mod_base : (m a e : ℕ) → (a % m) ^ e % m ≡ a ^ e % m
pow-mod_base m a zero = rw (pow-zero (a % m), pow-zero a) refl
pow-mod_base m a (suc e) =
    rw (pow-suc (a % m) e, pow-suc a e)
      (mul-mod_right_factor m ((a % m) ^ e) a
        ∙ sym (mul-mod_left_factor m ((a % m) ^ e) a)
        ∙ ap (λ (t : ℕ). t * a % m) (pow-mod_base m a e)
        ∙ mul-mod_left_factor m (a ^ e) a)

square-pow : (b h : ℕ) → (b * b) ^ h ≡ b ^ (2 * h)
square-pow b zero = rw (pow-zero (b * b)) (sym (pow-zero b))
square-pow b (suc h) =
    rw (twice_suc, pow-suc (b * b) h, pow-suc b (suc (2 * h)), pow-suc b (2 * h), square-pow b h)
      (omega arith)
  where
    twice_suc : 2 * suc h ≡ suc (suc (2 * h))
    twice_suc = omega arith

-- One round: the power of the lower half of the exponent, and one factor more if it is odd.
round-eq :
    (m base e rest : ℕ)
    → rest ≡ (base * base) ^ (e / 2) % m
    → (if e % 2 == 0 then rest else base * rest % m) ≡ base ^ e % m
round-eq m base e rest h = elim (Bool-cases (e % 2 == 0)) [
  | inl even ↦
      rw (even, h, square-pow base (e / 2))
        (ap (λ (t : ℕ). base ^ t % m) (omega (arith, (==_iff (e % 2) 0).0 even)))
  | inr odd ↦
      rw (odd, h, square-pow base (e / 2), mul-mod_right_factor m base (base ^ (2 * (e / 2))))
        (ap (λ (t : ℕ). t % m)
            (mul_comm base (base ^ (2 * (e / 2))) ∙ sym (pow-suc base (2 * (e / 2))))
          ∙ ap (λ (t : ℕ). base ^ t % m) {x = suc (2 * (e / 2))} (odd_exponent odd))
]
  where
    odd_exponent : (e % 2 == 0) ≡ false → suc (2 * (e / 2)) ≡ e
    odd_exponent odd = ground arith

mod_pow_loop-eq : (m base e : ℕ) (w : Acc ◌<◌ e) → mod_pow_loop m base e w ≡ base ^ e % m
unfolding mod_pow_loop
mod_pow_loop-eq m base e (Acc.intro _ smaller) = elim (dec_lt 0 e) [
  | yes pos ↦
      dif_pos (dec_lt 0 e) le_prop pos _ _
      ∙ round-eq m base e
          (mod_pow_loop m (base * base % m) (e / 2) (smaller (e / 2) (halved e pos)))
          (mod_pow_loop-eq m (base * base % m) (e / 2) (smaller (e / 2) (halved e pos))
            ∙ pow-mod_base m (base * base) (e / 2))
  | no zero_exponent ↦
      dif_neg (dec_lt 0 e) zero_exponent _ _
      ∙ ap (λ (t : ℕ). t % m) (sym (pow-zero base) ∙ ap (λ (t : ℕ). base ^ t) (omega arith))
]

-- Square and multiply is the power modulo m.
pub mod_pow-eq : (base e m : ℕ) → mod_pow base e m ≡ base ^ e % m
unfolding mod_pow
mod_pow-eq base e m = mod_pow_loop-eq m base e (lt_wf.apply e)
