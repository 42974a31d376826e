-- ===== src/Prelude/Bits.antt =====
-- Laws of the bit operations at variables, from one equation for the lowest binary digit.
use Prim.Native.Nat.{ℕ, zero, suc, ◌+◌, ◌-◌, ◌*◌, ◌/◌, ◌%◌, ◌^◌, ◌≤◌, ◌<◌, max, min, differ}
use Prim.Native.Nat.{digits, bitwise, bit_and, bit_or, bit_xor}
use Prim.Native.Nat.{bit_and-bitwise, bit_or-bitwise, bit_xor-bitwise}
use mathlib.Core.Path.{◌≡◌, refl, ap, ◌∙◌}
use mathlib.Core.List.{List, [], ◌∷◌}
use native.Mathlib.Nat.{le_refl, pow-suc}
use native.Mathlib.Omega.{arith}
use google_find_my_tools_go.Prelude.Tests.{◌==◌, if◌then◌else◌}

-- A round of fuel more than a number needs adds no digit.
module _ (z : ℕ → ℕ) (f : ℕ → ℕ → ℕ) where
  spare_round : (n a b : ℕ) → a ≤ n → digits z f (suc n) a b ≡ digits z f n a b
  spare_round zero zero b h = refl
  spare_round (suc n) zero b h = refl
  spare_round zero (suc a) b h = elim h [ ]
  spare_round (suc n) (suc a) b h =
      ap (λ (t : ℕ). t * 2 + f (suc a % 2) (b % 2))
        (spare_round n (suc a / 2) (b / 2) (omega arith))

  spare_rounds : (k a b : ℕ) → digits z f (k + a) a b ≡ bitwise z f a b
  spare_rounds zero a b = ap (λ (t : ℕ). digits z f t a b) (omega arith)
  spare_rounds (suc k) a b =
      ap (λ (t : ℕ). digits z f t a b) {y = suc (k + a)} (omega arith)
      ∙ spare_round (k + a) a b (omega arith)
      ∙ spare_rounds k a b

  -- The lowest digit, and the others.
  lowest_digit :
      (x y : ℕ)
      → bitwise z f (suc x) y ≡ f (suc x % 2) (y % 2) + 2 * bitwise z f (suc x / 2) (y / 2)
  lowest_digit x y = omega (arith, ap (λ (t : ℕ). digits z f t (suc x / 2) (y / 2)) split, others)
    where
      split : x ≡ x - suc x / 2 + suc x / 2
      split = omega arith

      others :
          digits z f (x - suc x / 2 + suc x / 2) (suc x / 2) (y / 2)
          ≡ bitwise z f (suc x / 2) (y / 2)
      others = spare_rounds (x - suc x / 2) (suc x / 2) (y / 2)

pub or_digit : (x y : ℕ) → bit_or x y ≡ max (x % 2) (y % 2) + 2 * bit_or (x / 2) (y / 2)
or_digit zero y = simp bit_or-bitwise (omega arith)
or_digit (suc x) y = simp bit_or-bitwise (lowest_digit (λ d. d) max x y)

pub xor_digit : (x y : ℕ) → bit_xor x y ≡ differ (x % 2) (y % 2) + 2 * bit_xor (x / 2) (y / 2)
xor_digit zero y = simp bit_xor-bitwise (omega arith)
xor_digit (suc x) y = simp bit_xor-bitwise (lowest_digit (λ d. d) differ x y)

pub and_digit : (x y : ℕ) → bit_and x y ≡ min (x % 2) (y % 2) + 2 * bit_and (x / 2) (y / 2)
and_digit zero y = simp bit_and-bitwise (omega arith)
and_digit (suc x) y = simp bit_and-bitwise (lowest_digit (λ b. 0) min x y)

and_zero_fuel : (n x : ℕ) → x ≤ n → bit_and x 0 ≡ 0
and_zero_fuel zero zero h = refl
and_zero_fuel zero (suc x) h = absurd (omega arith)
and_zero_fuel (suc n) zero h = refl
and_zero_fuel (suc n) (suc x) h =
    omega (arith, and_digit (suc x) 0, and_zero_fuel n (suc x / 2) (omega arith))

and_one : (x : ℕ) → bit_and x 1 ≡ x % 2
and_one x = omega (arith, and_digit x 1, and_zero_fuel (x / 2) (x / 2) (le_refl _))

and_double : (x m k : ℕ) → k ≡ m * 2 → bit_and x k ≡ 2 * bit_and (x / 2) m
and_double x m k h = omega (arith, and_digit x k, ap (λ t. bit_and (x / 2) t) {x = k / 2} half)
  where
    half : k / 2 ≡ m
    half = omega arith

-- The mask 0x80, of any number.
pub and_top : (x : ℕ) → bit_and x 0x80 ≡ x / 128 % 2 * 128
and_top x = omega (
  arith,
  and_double x 64 128 refl,
  and_double (x / 2) 32 64 refl,
  and_double (x / 2 / 2) 16 32 refl,
  and_double (x / 2 / 2 / 2) 8 16 refl,
  and_double (x / 2 / 2 / 2 / 2) 4 8 refl,
  and_double (x / 2 / 2 / 2 / 2 / 2) 2 4 refl,
  and_double (x / 2 / 2 / 2 / 2 / 2 / 2) 1 2 refl,
  and_one (x / 2 / 2 / 2 / 2 / 2 / 2 / 2),
)

differ-le : (x y : ℕ) → x < 2 → y < 2 → differ x y ≤ 1
differ-le zero y hx hy = omega arith
differ-le (suc zero) zero hx hy = omega arith
differ-le (suc zero) (suc y) hx hy = omega arith
differ-le (suc (suc x)) y hx hy = absurd (omega arith)

pub pow_two : (n : ℕ) → 2 ^ suc n ≡ 2 * 2 ^ n
pow_two n = omega (arith, pow-suc 2 n)

-- Both operands below a power of two: so is the result.
pub bit_xor-lt : (n a b : ℕ) → a < 2 ^ n → b < 2 ^ n → bit_xor a b < 2 ^ n
bit_xor-lt zero a b ha hb = rw (eq_zero a ha, eq_zero b hb) (omega arith)
  where
    eq_zero : (c : ℕ) → c < 2 ^ 0 → c ≡ 0
    eq_zero c h = omega arith
bit_xor-lt (suc n) a b ha hb = omega (
  arith,
  xor_digit a b,
  differ-le (a % 2) (b % 2) (omega arith) (omega arith),
  pow_two n,
  bit_xor-lt n (a / 2) (b / 2) (omega (arith, pow_two n)) (omega (arith, pow_two n)),
)

differ_zero : (x : ℕ) → differ x 0 ≡ x
differ_zero zero = refl
differ_zero (suc x) = refl

xor_zero_fuel : (n x : ℕ) → x ≤ n → bit_xor x 0 ≡ x
xor_zero_fuel n zero h = refl
xor_zero_fuel zero (suc x) h = absurd (omega arith)
xor_zero_fuel (suc n) (suc x) h =
    omega (
      arith,
      xor_digit (suc x) 0,
      differ_zero (suc x % 2),
      xor_zero_fuel n (suc x / 2) (omega arith),
    )

pub bit_xor_zero : (x : ℕ) → bit_xor x 0 ≡ x
bit_xor_zero x = xor_zero_fuel x x (le_refl _)

or_zero_fuel : (n x : ℕ) → x ≤ n → bit_or x 0 ≡ x
or_zero_fuel n zero h = refl
or_zero_fuel zero (suc x) h = absurd (omega arith)
or_zero_fuel (suc n) (suc x) h =
    omega (arith, or_digit (suc x) 0, or_zero_fuel n (suc x / 2) (omega arith))

pub bit_or_zero : (x : ℕ) → bit_or x 0 ≡ x
bit_or_zero x = or_zero_fuel x x (le_refl _)

differ_twice : (x y : ℕ) → x < 2 → y < 2 → differ (differ x y) y ≡ x
differ_twice zero zero hx hy = refl
differ_twice zero (suc zero) hx hy = refl
differ_twice (suc zero) zero hx hy = refl
differ_twice (suc zero) (suc zero) hx hy = refl
differ_twice (suc (suc x)) y hx hy = absurd (omega arith)
differ_twice x (suc (suc y)) hx hy = absurd (omega arith)

-- The digits above the lowest one, and the lowest one.
bit_xor-half : (a k : ℕ) → bit_xor a k / 2 ≡ bit_xor (a / 2) (k / 2)
bit_xor-half a k =
    omega (arith, xor_digit a k, differ-le (a % 2) (k % 2) (omega arith) (omega arith))

bit_xor-parity : (a k : ℕ) → bit_xor a k % 2 ≡ differ (a % 2) (k % 2)
bit_xor-parity a k =
    omega (arith, xor_digit a k, differ-le (a % 2) (k % 2) (omega arith) (omega arith))

xor_cancel_fuel : (n a k : ℕ) → a + k ≤ n → bit_xor (bit_xor a k) k ≡ a
xor_cancel_fuel zero zero zero h = refl
xor_cancel_fuel zero (suc a) k h = absurd (omega arith)
xor_cancel_fuel zero zero (suc k) h = absurd (omega arith)
xor_cancel_fuel (suc n) zero zero h = refl
xor_cancel_fuel (suc n) a k h =
    xor_digit (bit_xor a k) k
    ∙ rw (bit_xor-half a k, bit_xor-parity a k)
        (omega (
          arith,
          xor_cancel_fuel n (a / 2) (k / 2) (omega arith),
          differ_twice (a % 2) (k % 2) (omega arith) (omega arith),
        ))

-- Exclusive or with the same mask twice gives the value back.
pub bit_xor_cancel : (a k : ℕ) → bit_xor (bit_xor a k) k ≡ a
bit_xor_cancel a k = xor_cancel_fuel (a + k) a k (le_refl _)

zero-bit_or : (b : ℕ) → bit_or 0 b ≡ b
zero-bit_or b = simp bit_or-bitwise (omega arith)

-- Bits written above the top bit of `a` add up.
pub bit_or-shift : (s a b : ℕ) → a < 2 ^ s → bit_or a (b * 2 ^ s) ≡ a + b * 2 ^ s
bit_or-shift zero a b h = rw eq_zero (omega (arith, zero-bit_or (b * 2 ^ 0)))
  where
    eq_zero : a ≡ 0
    eq_zero = omega arith
bit_or-shift (suc s) a b h =
    or_digit a (b * 2 ^ suc s)
    ∙ rw (half, parity) (omega (arith, bit_or-shift s (a / 2) b (omega (arith, pow_two s)), pow-eq))
  where
    pow-eq : b * 2 ^ suc s ≡ 2 * (b * 2 ^ s)
    pow-eq = omega (arith, ap (λ (t : ℕ). b * t) (pow_two s))

    half : b * 2 ^ suc s / 2 ≡ b * 2 ^ s
    half = omega (arith, pow-eq)

    parity : b * 2 ^ suc s % 2 ≡ 0
    parity = omega (arith, pow-eq)

-- The numbers below `n` at which two functions differ. A law of one byte is a table with none.
mismatches : (ℕ → ℕ) → (ℕ → ℕ) → ℕ → List ℕ
mismatches f g zero = []
mismatches f g (suc n) = let rest = mismatches f g n in if f n == g n then rest else n ∷ rest

no_mismatch : (f g : ℕ → ℕ) (n x : ℕ) → mismatches f g n ≡ [] → x < n → f x ≡ g x
unfolding mismatches
no_mismatch f g zero x none h = elim h [ ]
no_mismatch f g (suc n) x none h = ground (arith, no_mismatch f g n x)

-- `b & 0x7f`, `b & 0x80` and `b | 0x80` of a byte.
pub low_seven : (b : ℕ) → b < 256 → bit_and b 0x7f ≡ b % 128
unfolding mismatches
low_seven b h = no_mismatch (λ x. bit_and x 0x7f) (λ x. x % 128) 256 b refl h

pub top_bit : (b : ℕ) → b < 256 → bit_and b 0x80 ≡ b / 128 * 128
unfolding mismatches
top_bit b h = no_mismatch (λ x. bit_and x 0x80) (λ x. x / 128 * 128) 256 b refl h

pub set_top_bit : (b : ℕ) → b < 256 → bit_or b 0x80 ≡ b % 128 + 128
unfolding mismatches
set_top_bit b h = no_mismatch (λ x. bit_or x 0x80) (λ x. x % 128 + 128) 256 b refl h

-- `n | carry` of a byte shifted left by one.
pub or_carry : (b c : ℕ) → b < 256 → c ≤ 1 → bit_or (b * 2 % 256) c ≡ b * 2 % 256 + c
unfolding mismatches
or_carry b zero hb hc =
    no_mismatch (λ x. bit_or (x * 2 % 256) 0) (λ x. x * 2 % 256 + 0) 256 b refl hb
or_carry b (suc zero) hb hc =
    no_mismatch (λ x. bit_or (x * 2 % 256) 1) (λ x. x * 2 % 256 + 1) 256 b refl hb
or_carry b (suc (suc c)) hb hc = absurd (omega arith)
