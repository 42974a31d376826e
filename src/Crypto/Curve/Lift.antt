-- ===== src/Crypto/Curve/Lift.antt =====
-- PointFromX returns a point of the curve.
use native.Mathlib.Nat.{add-mul-mod_self_right, mod-lt}
use google_find_my_tools_go.Prelude.{ℕ, ◌+◌, ◌-◌, ◌*◌, ◌/◌, ◌%◌, ◌^◌, ◌<◌, ◌≡◌, sym, ap, ◌∙◌, arith}
use google_find_my_tools_go.Prelude.{
  some, List, if◌then◌else◌, ◌==◌, ==_iff, false, Bool-cases, inl, inr,
}
use google_find_my_tools_go.BigEndian.{set_bytes}
use google_find_my_tools_go.Crypto.BigInt.{mod_pow, mod_pow-eq}
use google_find_my_tools_go.Crypto.Curve.{curve_p, curve_b, curve_rhs, point_from_x}

-- y^2 = x^3 - 3x + b modulo p, with the subtracted term on the other side.
pub OnCurve : ℕ → ℕ → Type 0
OnCurve x y = (y * y + 3 * x) % curve_p ≡ (x ^ 3 + curve_b) % curve_p

-- Two numbers that add up to the modulus have the same square.
opposite-square : (m d y : ℕ) → d + y ≡ m → d * d % m ≡ y * y % m
opposite-square m d y h =
    sym (add-mul-mod_self_right (d * d) y m)
    ∙ ap (λ (t : ℕ). t % m)
        (omega (arith, ap (λ (t : ℕ). y * t) (sym h), ap (λ (t : ℕ). d * t) (sym h)))
    ∙ add-mul-mod_self_right (y * y) d m

curve_rhs-eq : (x : ℕ) → (curve_rhs x + 3 * x) % curve_p ≡ (x ^ 3 + curve_b) % curve_p
unfolding curve_rhs
curve_rhs-eq x = rw (mod_pow-eq x 3 curve_p) (omega arith)

on_curve : (x y : ℕ) → y * y % curve_p ≡ curve_rhs x → OnCurve x y
unfolding OnCurve
on_curve x y h = omega (arith, h, curve_rhs-eq x)

-- What PointFromX has checked of the root.
point_from_x_checked :
    (bytes : List ℕ) (x y : ℕ)
    → point_from_x bytes ≡ some (x, y)
    → let root = mod_pow (curve_rhs (set_bytes bytes)) ((curve_p + 1) / 4) curve_p in
      (x ≡ set_bytes bytes)
      × (set_bytes bytes < curve_p)
      × (root * root % curve_p ≡ curve_rhs (set_bytes bytes))
      × (y ≡ (if root % 2 == 1 then curve_p - root else root))
unfolding point_from_x
point_from_x_checked bytes x y h = ground arith

mod_pow-lt : (b e : ℕ) → mod_pow b e curve_p < curve_p
mod_pow-lt b e = rw (mod_pow-eq b e curve_p) (mod-lt (b ^ e) {m = curve_p} (omega arith))

even_root :
    (x root y : ℕ)
    → root < curve_p
    → root * root % curve_p ≡ curve_rhs x
    → y ≡ (if root % 2 == 1 then curve_p - root else root)
    → (y < curve_p) × (y % 2 ≡ 0) × OnCurve x y
even_root x root y small square e = elim (Bool-cases (root % 2 == 1)) [
  | inl odd ↦
      let is_odd : root % 2 ≡ 1 = (==_iff (root % 2) 1).0 odd in
      let mirror : y ≡ curve_p - root = rw odd at e in
      (
        omega arith,
        omega arith,
        on_curve x y (opposite-square curve_p y root (omega arith) ∙ square),
      )
  | inr even ↦
      let same : y ≡ root = rw even at e in
      (rw same small, not_odd root y same even, on_curve x y (rw same square))
]
  where
    not_odd : (r z : ℕ) → z ≡ r → (r % 2 == 1) ≡ false → z % 2 ≡ 0
    not_odd r z q h = ground arith

-- A point that PointFromX returns has the x-coordinate given by the bytes, below p, an even
-- y-coordinate below p, and satisfies the equation of the curve.
pub point_from_x_sound :
    (bytes : List ℕ) (x y : ℕ)
    → point_from_x bytes ≡ some (x, y)
    → (x ≡ set_bytes bytes) × (x < curve_p) × (y < curve_p) × (y % 2 ≡ 0) × OnCurve x y
point_from_x_sound bytes x y h =
    let (same, below, square, chosen) = point_from_x_checked bytes x y h in
    let (small, even, curve) = even_root (set_bytes bytes) _ y (mod_pow-lt _ _) square chosen in
    (same, rw same below, small, even, rw same curve)
