-- ===== src/Fcm/Register/Cert.antt =====
-- The fingerprint that addAndroidHeaders sends, and the lifetime that parseExpiresIn reads.
use google_find_my_tools_go.Prelude.{
  ℕ, ◌-◌, ◌^◌, ◌<◌, ◌≡◌, refl, true, not, List, [], ◌∷◌, ◌++◌, map, length, leb, ◌==◌,
  if◌then◌else◌, All, arith, ok, err, take-append, drop-append, length-append,
}
use google_find_my_tools_go.Bytes.{codes, bytes_eq}
use google_find_my_tools_go.Decimal.{format_decimal}
use google_find_my_tools_go.Decimal.Read.{atoi-format_decimal}
use google_find_my_tools_go.Text.{to_lower}
use google_find_my_tools_go.Fcm.Register.Config.{
  drop_separators, is_hex_digit, all_hex, normalize_cert_sha1, invalid_cert, trim_seconds,
  parse_expires_in,
}

-- 0 to 9 and a to f.
abbrev pub IsLowerHex : ℕ → Type 0
IsLowerHex c = (is_hex_digit c ≡ true) × (to_lower c ≡ c)

to_lower_idem : (c : ℕ) → to_lower (to_lower c) ≡ to_lower c
unfolding to_lower
to_lower_idem c = ground arith

drop_separators-Lower : (v : List ℕ) → All (λ c. to_lower c ≡ c) (drop_separators (map to_lower v))
unfolding drop_separators
drop_separators-Lower [] = tt
drop_separators-Lower (c ∷ v) = ground (arith, to_lower_idem c, drop_separators-Lower v)

all_hex-All : (h : List ℕ) → all_hex h ≡ true → All (λ c. to_lower c ≡ c) h → All IsLowerHex h
unfolding all_hex
all_hex-All [] e l = tt
all_hex-All (c ∷ h) e l = ground (arith, all_hex-All h)

map-to_lower : (h : List ℕ) → All IsLowerHex h → map to_lower h ≡ h
map-to_lower [] l = refl
map-to_lower (c ∷ h) l = cc (l.0.1, map-to_lower h l.1)

drop_separators-hex : (h : List ℕ) → All IsLowerHex h → drop_separators h ≡ h
unfolding drop_separators is_hex_digit
drop_separators-hex [] l = refl
drop_separators-hex (c ∷ h) l = ground (arith, drop_separators-hex h)

normalize-fixed :
    (h : List ℕ)
    → length h ≡ 40
    → all_hex h ≡ true
    → All IsLowerHex h
    → normalize_cert_sha1 h ≡ ok h
unfolding normalize_cert_sha1
normalize-fixed h size hex l = rw (map-to_lower h l, drop_separators-hex h l, size, hex) refl

normalize-checked :
    (h h' : List ℕ)
    → (if not (length h == 40)
        then err invalid_cert
        else if not (all_hex h)
        then err invalid_cert
        else ok h)
      ≡ ok h'
    → (h ≡ h') × (length h ≡ 40) × (all_hex h ≡ true)
normalize-checked h h' e = ground arith

-- A fingerprint that addAndroidHeaders sends has forty digits, 0 to 9 and a to f, and is what its
-- own text is normalized to.
pub normalize_cert_sha1_form :
    (v h : List ℕ)
    → normalize_cert_sha1 v ≡ ok h
    → (length h ≡ 40) × All IsLowerHex h × (normalize_cert_sha1 h ≡ ok h)
unfolding normalize_cert_sha1
normalize_cert_sha1_form v h e =
    let (same, size, hex) = normalize-checked (drop_separators (map to_lower v)) h e in
    let lower = all_hex-All h (rw same at hex) (rw same at (drop_separators-Lower v)) in
    (rw same at size, lower, normalize-fixed h (rw same at size) (rw same at hex) lower)

length-less : (xs : List ℕ) → length (xs ++ codes "s") - 1 ≡ length xs
length-less xs = omega (arith, length-append xs (codes "s"))

long : (xs : List ℕ) → leb 1 (length (xs ++ codes "s")) ≡ true
long xs = ground (arith, length-append xs (codes "s"))

trim_seconds-append : (xs : List ℕ) → trim_seconds (xs ++ codes "s") ≡ xs
unfolding trim_seconds bytes_eq
trim_seconds-append xs =
    rw (length-less xs, drop-append xs (codes "s"), take-append xs (codes "s"), long xs) refl

-- The seconds that FCM writes as a decimal number with an s behind it are read back, for every int
-- that is not negative.
pub parse_expires_in-format_decimal :
    (n : ℕ) → n < 2 ^ 63 → parse_expires_in (format_decimal n ++ codes "s") ≡ ok n
unfolding parse_expires_in
parse_expires_in-format_decimal n bound =
    rw (trim_seconds-append (format_decimal n), atoi-format_decimal n bound) refl
