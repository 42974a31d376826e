-- ===== src/Bytes.antt =====
-- Byte slices and Go strings (their bytes) as lists of numbers: literals, comparison, slicing.
use Prim.Native.Char.{code}
use Prim.Native.String.{String}
use google_find_my_tools_go.Prelude.{ℕ, ◌-◌, ◌≡◌, ◌↔◌, refl, arith}
use google_find_my_tools_go.Prelude.{List, [], ◌∷◌, Bool, true, false, ◌&&◌, ◌==◌}
use google_find_my_tools_go.Prelude.{length, take, drop, leb, if◌then◌else◌}

-- The bytes of a string literal of the source (all of them are ASCII).
abbrev pub codes : String → List ℕ
codes String.[] = []
codes (String.◌∷◌ c s) = code c ∷ codes s

unfoldable pub bytes_eq : List ℕ → List ℕ → Bool
bytes_eq [] [] = true
bytes_eq [] (y ∷ ys) = false
bytes_eq (x ∷ xs) [] = false
bytes_eq (x ∷ xs) (y ∷ ys) = x == y && bytes_eq xs ys

pub bytes_eq_iff : (xs ys : List ℕ) → (bytes_eq xs ys ≡ true) ↔ (xs ≡ ys)
unfolding bytes_eq
bytes_eq_iff [] [] = ground arith
bytes_eq_iff [] (y ∷ ys) = ground arith
bytes_eq_iff (x ∷ xs) [] = ground arith
bytes_eq_iff (x ∷ xs) (y ∷ ys) = ground (arith, bytes_eq_iff xs ys)

pub bytes_eq_self : (xs : List ℕ) → bytes_eq xs xs ≡ true
bytes_eq_self xs = (bytes_eq_iff xs xs).1 refl

-- s[lo:hi]
abbrev pub slice : List ℕ → ℕ → ℕ → List ℕ
slice xs lo hi = take (hi - lo) (drop lo xs)

-- strings.HasPrefix, and trimPrefix of push.go: the prefix is taken off once, if it is there.
unfoldable pub has_prefix : List ℕ → List ℕ → Bool
has_prefix s prefix = leb (length prefix) (length s) && bytes_eq (take (length prefix) s) prefix

unfoldable pub trim_prefix : List ℕ → List ℕ → List ℕ
unfolding has_prefix
trim_prefix s prefix = if has_prefix s prefix then drop (length prefix) s else s

-- s == ""
abbrev pub is_empty : List ℕ → Bool
is_empty [] = true
is_empty (b ∷ bs) = false
