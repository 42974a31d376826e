-- ===== src/HttpBody/Fields.antt =====
-- What Redact (pkg/googlefindmy/internal/httpbody/httpbody.go) leaves of a string's fields.
use google_find_my_tools_go.Prelude.{
  ℕ, ◌≡◌, refl, sym, ap, ap₂, ◌∙◌, arith, true, false, Bool-cases, Option-cases, inl, inr, ◌⊎◌,
}
use google_find_my_tools_go.Prelude.{
  List, [], ◌∷◌, ◌++◌, All, All-append, append_assoc, append-nil, none, some, if◌then◌else◌,
}
use mathlib.Core.List.{Mem, mem-cons_self, mem-cons_of_mem}
use mathlib.Core.Path.{subst}
use google_find_my_tools_go.Bytes.{has_prefix, bytes_eq}
use google_find_my_tools_go.HttpBody.{
  sensitive_keys, is_separator, find_key, stars, mask, redact_loop, redact, safe, truncate,
}

-- A string as its fields, with the separator behind each field but the last.
pub data Fields : Type 0 where
  last : List ℕ → Fields
  field : List ℕ → ℕ → Fields → Fields

unfoldable pub split_loop : List ℕ → List ℕ → Fields
split_loop front [] = last front
split_loop front (b ∷ s) =
    let next_field = split_loop [] s in
    let same_field = split_loop (front ++ b ∷ []) s in
    if is_separator b then field front b next_field else same_field

-- The fields of a string: what strings.IndexAny cuts it into.
abbrev pub split : List ℕ → Fields
split s = split_loop [] s

abbrev pub mask_fields : Fields → Fields
mask_fields (last f) = last (mask f)
mask_fields (field f b fs) = field (mask f) b (mask_fields fs)

-- No field begins with a sensitive key, but for those whose value is hidden.
abbrev pub Hidden : List ℕ → Type 0
Hidden f =
    (find_key f sensitive_keys ≡ none)
    ⊎ ((key : List ℕ) × Mem key sensitive_keys × (f ≡ key ++ stars))

abbrev pub AllHidden : Fields → Type 0
AllHidden (last f) = Hidden f
AllHidden (field f b fs) = Hidden f × AllHidden fs

abbrev join : Fields → List ℕ
join (last f) = f
join (field f b fs) = f ++ b ∷ join fs

-- A field without separators is one field.
abbrev Plain : List ℕ → Type 0
Plain = All (λ b. is_separator b ≡ false)

some-injective {ℓ} : {A : Type ℓ} (a b : A) → some a ≡ some b → a ≡ b
some-injective a b h = cc

split_loop-Plain :
    (front f s : List ℕ) → Plain f → split_loop front (f ++ s) ≡ split_loop (front ++ f) s
unfolding split_loop
split_loop-Plain front [] s h = ap (λ t. split_loop t s) (sym (append-nil front))
split_loop-Plain front (b ∷ f) s (plain, rest) = rw plain (
    split_loop-Plain (front ++ b ∷ []) f s rest
    ∙ ap (λ t. split_loop t s) (append_assoc front (b ∷ []) f))

redact_loop-join :
    (front s : List ℕ) → redact_loop front s ≡ join (mask_fields (split_loop front s))
unfolding redact_loop split_loop
redact_loop-join front [] = refl
redact_loop-join front (b ∷ s) = elim (Bool-cases (is_separator b)) [
  | inl sep ↦ rw sep (ap (λ t. mask front ++ b ∷ t) (redact_loop-join [] s))
  | inr plain ↦ rw plain (redact_loop-join (front ++ b ∷ []) s)
]

-- Fields as split makes them: no separator inside a field, and separators between them.
abbrev Proper : Fields → Type 0
Proper (last f) = Plain f
Proper (field f b fs) = Plain f × (is_separator b ≡ true) × Proper fs

split_loop-Proper : (front s : List ℕ) → Plain front → Proper (split_loop front s)
unfolding split_loop
split_loop-Proper front [] h = h
split_loop-Proper front (b ∷ s) h = elim (Bool-cases (is_separator b)) [
  | inl sep ↦ rw sep (h, sep, split_loop-Proper [] s tt)
  | inr plain ↦
      rw plain (split_loop-Proper (front ++ b ∷ []) s (All-append _ front (b ∷ []) h (plain, tt)))
]

split-join : (fs : Fields) → Proper fs → split (join fs) ≡ fs
unfolding split_loop
split-join (last f) h = ap (λ t. split_loop [] t) (sym (append-nil f)) ∙ split_loop-Plain [] f [] h
split-join (field f b fs) (plain, sep, rest) =
    split_loop-Plain [] f (b ∷ join fs) plain ∙ rw sep (ap (field f b) (split-join fs rest))

-- What holds of each sensitive key holds of the key that a field begins with.
find_key-All {ℓ} :
    (P : List ℕ → Type ℓ) (f k : List ℕ) (ks : List (List ℕ))
    → All P ks
    → find_key f ks ≡ some k
    → P k
unfolding find_key
find_key-All P f k [] h found = ground arith
find_key-All P f k (k' ∷ ks) (first, rest) found = elim (Bool-cases (has_prefix f k')) [
  | inl begins ↦ subst P (some-injective k' k (rw begins at found)) first
  | inr other ↦ find_key-All P f k ks rest (rw other at found)
]

find_key-Mem : (f k : List ℕ) (ks : List (List ℕ)) → find_key f ks ≡ some k → Mem k ks
unfolding find_key
find_key-Mem f k [] found = ground arith
find_key-Mem f k (k' ∷ ks) found = elim (Bool-cases (has_prefix f k')) [
  | inl begins ↦
      subst (λ t. Mem t (k' ∷ ks)) (some-injective k' k (rw begins at found)) mem-cons_self
  | inr other ↦ mem-cons_of_mem k' (find_key-Mem f k ks (rw other at found))
]

-- A hidden key is left alone, and has no separator.
Stable : List ℕ → Type 0
Stable k = (mask (k ++ stars) ≡ k ++ stars) × Plain (k ++ stars)

keys-Stable : All Stable sensitive_keys
unfolding Stable mask find_key has_prefix bytes_eq is_separator
keys-Stable = ground arith

mask-mask : (f : List ℕ) → mask (mask f) ≡ mask f
unfolding mask Stable
mask-mask f = elim (Option-cases (find_key f sensitive_keys)) [
  | inl missing ↦ rw missing (rw missing refl)
  | inr (k, found) ↦ rw found ((find_key-All Stable f k sensitive_keys keys-Stable found).0)
]

mask-Hidden : (f : List ℕ) → Hidden (mask f)
unfolding mask
mask-Hidden f = elim (Option-cases (find_key f sensitive_keys)) [
  | inl missing ↦ rw missing (inl missing)
  | inr (k, found) ↦ rw found (inr (k, find_key-Mem f k sensitive_keys found, refl))
]

mask-Plain : (f : List ℕ) → Plain f → Plain (mask f)
unfolding mask Stable
mask-Plain f h = elim (Option-cases (find_key f sensitive_keys)) [
  | inl missing ↦ rw missing h
  | inr (k, found) ↦ rw found ((find_key-All Stable f k sensitive_keys keys-Stable found).1)
]

mask_fields-Proper : (fs : Fields) → Proper fs → Proper (mask_fields fs)
mask_fields-Proper (last f) h = mask-Plain f h
mask_fields-Proper (field f b fs) (plain, sep, rest) =
    (mask-Plain f plain, sep, mask_fields-Proper fs rest)

mask_fields-AllHidden : (fs : Fields) → AllHidden (mask_fields fs)
mask_fields-AllHidden (last f) = mask-Hidden f
mask_fields-AllHidden (field f b fs) = (mask-Hidden f, mask_fields-AllHidden fs)

mask_fields_twice : (fs : Fields) → mask_fields (mask_fields fs) ≡ mask_fields fs
mask_fields_twice (last f) = ap last (mask-mask f)
mask_fields_twice (field f b fs) = ap₂ (λ g gs. field g b gs) (mask-mask f) (mask_fields_twice fs)

redact-join : (s : List ℕ) → redact s ≡ join (mask_fields (split s))
unfolding redact
redact-join s = redact_loop-join [] s

-- Redact hides the fields of a string one by one and keeps every separator in its place.
pub split-redact : (s : List ℕ) → split (redact s) ≡ mask_fields (split s)
unfolding redact
split-redact s =
    ap split (redact_loop-join [] s)
    ∙ split-join (mask_fields (split s)) (mask_fields-Proper (split s) (split_loop-Proper [] s tt))

-- In what Safe makes of a body no field begins with a sensitive key, but for a key that is followed
-- by three stars and nothing else.
pub safe-AllHidden : (body : List ℕ) → AllHidden (split (safe body))
unfolding safe
safe-AllHidden body =
    rw (split-redact (truncate body)) (mask_fields-AllHidden (split (truncate body)))

-- A text that Redact has gone over is not changed by it again.
pub redact-redact : (s : List ℕ) → redact (redact s) ≡ redact s
redact-redact s =
    redact-join (redact s)
    ∙ ap (λ fs. join (mask_fields fs)) (split-redact s)
    ∙ ap join (mask_fields_twice (split s))
    ∙ sym (redact-join s)
