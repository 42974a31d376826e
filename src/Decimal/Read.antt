-- ===== src/Decimal/Read.antt =====
-- strconv.Atoi reads what fmt prints.
use mathlib.Core.Path.{subst}
use google_find_my_tools_go.Prelude.{
  ℕ, zero, suc, ◌+◌, ◌*◌, ◌/◌, ◌%◌, ◌^◌, ◌<◌, ◌≡◌, refl, sym, ap, ◌∙◌, Bool, List, [], ◌∷◌, ltb,
  if◌then◌else◌, some, All, arith, inl, inr, Bool-cases, ltb→lt,
}
use google_find_my_tools_go.Decimal.{digit, digits_loop, format_decimal, atoi_digits, atoi}

atoi_digits-digit :
    (m d : ℕ) (out : List ℕ) → d < 10 → atoi_digits m (digit d ∷ out) ≡ atoi_digits (m * 10 + d) out
unfolding atoi_digits
atoi_digits-digit m d out h = ground arith

-- The digits in front are read as the number that they stand for.
atoi_digits-digits_loop :
    (fuel n : ℕ) (out : List ℕ)
    → n < 10 ^ fuel
    → atoi_digits 0 (digits_loop fuel 10 n out) ≡ atoi_digits n out
unfolding atoi_digits digits_loop
atoi_digits-digits_loop zero n out h = ap (λ (m : ℕ). atoi_digits m out) {x = 0} (omega arith)
atoi_digits-digits_loop (suc fuel) n out h =
    let split = λ (t : Bool).
      atoi_digits 0
        (if t then digit n ∷ out else digits_loop fuel 10 (n / 10) (digit (n % 10) ∷ out)) in
    elim (Bool-cases (ltb n 10)) [
      | inl small ↦
          ap split small
          ∙ (atoi_digits-digit 0 n out (ltb→lt n 10 small)
              ∙ ap (λ (m : ℕ). atoi_digits m out) {y = n} (omega arith))
      | inr large ↦
          ap split large
          ∙ (atoi_digits-digits_loop fuel (n / 10) (digit (n % 10) ∷ out) (omega arith)
              ∙ (atoi_digits-digit (n / 10) (n % 10) out (omega arith)
                  ∙ ap (λ (m : ℕ). atoi_digits m out) {y = n} (omega arith)))
    ]

digits_loop-filled :
    (fuel n : ℕ) (out : List ℕ) → (c : ℕ) × (s : List ℕ) × (digits_loop (suc fuel) 10 n out ≡ c ∷ s)
unfolding digits_loop
digits_loop-filled zero n out = elim (Bool-cases (ltb n 10)) [
  | inl small ↦ (digit n, out, rw (small) refl)
  | inr large ↦ (digit (n % 10), out, rw (large) refl)
]
digits_loop-filled (suc fuel) n out = elim (Bool-cases (ltb n 10)) [
  | inl small ↦ (digit n, out, rw (small) refl)
  | inr large ↦
      let (c, s, same) = digits_loop-filled fuel (n / 10) (digit (n % 10) ∷ out) in
      (c, s, rw (large) same)
]

atoi-digits :
    (c : ℕ) (s : List ℕ) (n : ℕ)
    → atoi_digits 0 (c ∷ s) ≡ some n
    → n < 2 ^ 63
    → atoi (c ∷ s) ≡ some n
unfolding atoi atoi_digits
atoi-digits c s n h bound = ground arith

atoi_digits-nil : (n : ℕ) → atoi_digits n [] ≡ some n
unfolding atoi_digits
atoi_digits-nil n = refl

-- A number is read back from its digits.
pub atoi-format_decimal : (n : ℕ) → n < 2 ^ 63 → atoi (format_decimal n) ≡ some n
unfolding format_decimal
atoi-format_decimal n bound =
    let (c, s, same) = digits_loop-filled 19 n [] in
    rw (same) (
      atoi-digits c s n
        (sym (ap (atoi_digits 0) same)
          ∙ (atoi_digits-digits_loop 20 n [] (omega arith) ∙ atoi_digits-nil n))
        bound)

-- The digits of a property of all of them, in front of bytes that have it.
pub digits_loop-All :
    (P : ℕ → Type 0)
    → ((d : ℕ) → d < 10 → P (digit d))
    → (fuel n : ℕ) (out : List ℕ) → All P out
    → All P (digits_loop fuel 10 n out)
unfolding digits_loop
digits_loop-All P h zero n out k = k
digits_loop-All P h (suc fuel) n out k =
    let split = λ (t : Bool).
      All P (if t then digit n ∷ out else digits_loop fuel 10 (n / 10) (digit (n % 10) ∷ out)) in
    elim (Bool-cases (ltb n 10)) [
      | inl small ↦ subst split (sym small) (h n (ltb→lt n 10 small), k)
      | inr large ↦
          subst split (sym large)
            (digits_loop-All P h fuel (n / 10) (digit (n % 10) ∷ out) (h (n % 10) (omega arith), k))
    ]

pub format_decimal-filled : (n : ℕ) → (c : ℕ) × (s : List ℕ) × (format_decimal n ≡ c ∷ s)
unfolding format_decimal
format_decimal-filled n = digits_loop-filled 19 n []

-- Digits are read without a bound.
pub atoi_digits-format_decimal :
    (n : ℕ)
    → n < 2 ^ 64
    → (c : ℕ) × (s : List ℕ) × (format_decimal n ≡ c ∷ s) × (atoi_digits 0 (c ∷ s) ≡ some n)
unfolding format_decimal
atoi_digits-format_decimal n bound =
    let (c, s, same) = digits_loop-filled 19 n [] in
    (
      c,
      s,
      same,
      sym (ap (atoi_digits 0) same)
          ∙ (atoi_digits-digits_loop 20 n [] (omega arith) ∙ atoi_digits-nil n),
    )
