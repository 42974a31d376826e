-- ===== src/Crypto/ForeignTracker.antt =====
-- pkg/googlefindmy/crypto/foreigntracker.go: location reports of a tracker that the finder does
-- not own, encrypted to its ephemeral identifier.
use google_find_my_tools_go.Prelude.{ℕ, ◌%◌, Option, none, some, ltb, ◌==◌}
use google_find_my_tools_go.Prelude.{List, [], ◌∷◌, ◌++◌, length, drop, replicate, if◌then◌else◌}
use google_find_my_tools_go.Prelude.{Result, ok, err, ◌>>=◌, ◌>>◌, fail_if}
use google_find_my_tools_go.GoErrors.{GoError, message}
use google_find_my_tools_go.BigEndian.{set_bytes}
use google_find_my_tools_go.Crypto.Aes.{BlockCipher}
use google_find_my_tools_go.Crypto.Eax.{encrypt_eax, decrypt_eax, short_ciphertext}
use google_find_my_tools_go.Crypto.BigInt.{fill_bytes}
use google_find_my_tools_go.Crypto.Curve.{curve_n, point_from_x}
use google_find_my_tools_go.Crypto.Eid.{Multiplication, calculate_r, finite_point}
pub mod RoundTrip

-- golang.org/x/crypto/hkdf over SHA-256: hkdf.New(secret, salt, info) and a read of n bytes.
abbrev pub Hkdf : Type 0
Hkdf = List ℕ → List ℕ → List ℕ → ℕ → List ℕ

-- hkdfSHA256, with its salt of zeros
unfoldable pub hkdf_sha256 : Hkdf → List ℕ → List ℕ → ℕ → List ℕ
hkdf_sha256 hkdf secret info n = hkdf secret (replicate 32 0) info n

abbrev pub invalid_eid : GoError
invalid_eid = message "crypto: invalid EID / public key"

abbrev pub lifted : Option (ℕ × ℕ) → Result GoError (ℕ × ℕ)
lifted none = err invalid_eid
lifted (some p) = ok p

-- R.x[12:] || S.x[12:]
unfoldable pub tracker_nonce : ℕ → ℕ → List ℕ
tracker_nonce rx sx = drop 12 (fill_bytes 20 rx) ++ drop 12 (fill_bytes 20 sx)

module _ (aes : BlockCipher) (curve : Multiplication) (hkdf : Hkdf) where
  unfoldable pub encrypt_foreign_tracker :
      List ℕ → List ℕ → List ℕ → Result GoError (List ℕ × List ℕ)
  encrypt_foreign_tracker msg random eid = do
    fail_if (length random == 0) (message "crypto: random scalar must not be empty")
    let s = set_bytes random % curve_n
    fail_if (s == 0) (message "crypto: random scalar reduces to zero")
    base ←
        finite_point "crypto: ephemeral public key is the point at infinity"
          (curve.scalar_base_mult s)
    r_point ← lifted (point_from_x eid)
    shared ←
        finite_point "crypto: shared point is the point at infinity" (curve.scalar_mult r_point s)
    let k = hkdf_sha256 hkdf (fill_bytes 20 shared.0) [] 32
    ct_tag ← encrypt_eax aes k (tracker_nonce (set_bytes eid) base.0) [] msg
    ok (ct_tag, fill_bytes 20 base.0)

  unfoldable pub decrypt_foreign_tracker : List ℕ → List ℕ → List ℕ → ℕ → Result GoError (List ℕ)
  decrypt_foreign_tracker identity_key encrypted_and_tag sx beacon_time_counter = do
    fail_if (ltb (length encrypted_and_tag) 16) short_ciphertext
    r ← calculate_r aes identity_key beacon_time_counter
    fail_if (r == 0) (message "crypto: derived scalar is zero")
    r_point ← finite_point "crypto: r*G is the point at infinity" (curve.scalar_base_mult r)
    s_point ← lifted (point_from_x sx)
    shared ←
        finite_point "crypto: shared point is the point at infinity" (curve.scalar_mult s_point r)
    let k = hkdf_sha256 hkdf (fill_bytes 20 shared.0) [] 32
    decrypt_eax aes k (tracker_nonce r_point.0 s_point.0) [] encrypted_and_tag
