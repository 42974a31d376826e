-- ===== src/Crypto/ForeignTracker/RoundTrip.antt =====
-- The owner of a tracker reads the report that a finder encrypted to the tracker's identifier.
use google_find_my_tools_go.Prelude.{
  ℕ, ◌*◌, ◌%◌, ◌<◌, ◌≤◌, ◌≡◌, ◌≢◌, refl, ◌∙◌, arith, ok, some, true, ltb-eq-false, ne→==-false,
}
use google_find_my_tools_go.Prelude.{List, [], length, replicate}
use google_find_my_tools_go.BigEndian.{set_bytes}
use google_find_my_tools_go.Crypto.Aes.{BlockCipher, is_key_size}
use google_find_my_tools_go.Crypto.Eax.{encrypt_eax, decrypt_eax}
use google_find_my_tools_go.Crypto.Eax.Seal.{decrypt_eax-encrypt_eax}
use google_find_my_tools_go.Crypto.BigInt.{fill_bytes, set_bytes-fill_bytes}
use google_find_my_tools_go.Crypto.Curve.{curve_p, curve_n, point_from_x}
use google_find_my_tools_go.Crypto.Curve.Lift.{point_from_x_sound}
use google_find_my_tools_go.Crypto.Eid.{Multiplication, calculate_r, generate_eid}
use google_find_my_tools_go.Crypto.ForeignTracker.{Hkdf, hkdf_sha256, tracker_nonce}
use google_find_my_tools_go.Crypto.ForeignTracker.{encrypt_foreign_tracker, decrypt_foreign_tracker}

-- The Diffie-Hellman agreement of two scalars, which crypto/elliptic computes: the multiples of the
-- base point are finite, their x-coordinates are reduced and lift to the curve, and the two shared
-- points have the same x-coordinate, whichever of the two lifts of an x-coordinate is taken.
pub record Agreement (curve : Multiplication) (r s : ℕ) : Type 0 where
  pub r_base : ℕ × ℕ
  pub s_base : ℕ × ℕ
  pub r_lift : ℕ × ℕ
  pub s_lift : ℕ × ℕ
  pub r_shared : ℕ × ℕ
  pub s_shared : ℕ × ℕ
  pub r_mult : curve.scalar_base_mult r ≡ some r_base
  pub s_mult : curve.scalar_base_mult s ≡ some s_base
  pub r_small : r_base.0 < curve_p
  pub s_small : s_base.0 < curve_p
  pub r_lifts : point_from_x (fill_bytes 20 r_base.0) ≡ some r_lift
  pub s_lifts : point_from_x (fill_bytes 20 s_base.0) ≡ some s_lift
  pub s_of_r : curve.scalar_mult r_lift s ≡ some s_shared
  pub r_of_s : curve.scalar_mult s_lift r ≡ some r_shared
  pub agree : s_shared.0 ≡ r_shared.0

-- What RFC 5869 says of HKDF with SHA-256: as many bytes as are asked for, up to 255 hashes.
abbrev pub FillsOutput : Hkdf → Type 0
FillsOutput hkdf =
    (secret salt info : List ℕ) (n : ℕ) → n ≤ 255 * 32 → length (hkdf secret salt info n) ≡ n

lift_same : (x : ℕ) (p : ℕ × ℕ) → x < curve_p → point_from_x (fill_bytes 20 x) ≡ some p → p.0 ≡ x
lift_same x p small h =
    (point_from_x_sound (fill_bytes 20 x) p.0 p.1 h).0 ∙ set_bytes-fill_bytes 20 x (omega arith)

module _ (aes : BlockCipher) (curve : Multiplication) (hkdf : Hkdf) where
  generate_eid-eq :
      (identity_key : List ℕ) (counter r : ℕ) (p : ℕ × ℕ)
      → calculate_r aes identity_key counter ≡ ok r
      → r ≢ 0
      → curve.scalar_base_mult r ≡ some p
      → generate_eid aes curve identity_key counter ≡ ok (fill_bytes 20 p.0)
  unfolding generate_eid
  generate_eid-eq identity_key counter r p hr pos hp = rw (hr, ne→==-false r 0 pos, hp) refl

  encrypt-eq :
      (msg random : List ℕ) (r : ℕ) (sealed : List ℕ)
      → length random ≢ 0
      → set_bytes random % curve_n ≢ 0
      → (a : Agreement curve r (set_bytes random % curve_n))
      → encrypt_eax aes
          (hkdf_sha256 hkdf (fill_bytes 20 a.s_shared.0) [] 32)
          (tracker_nonce a.r_base.0 a.s_base.0)
          []
          msg
        ≡ ok sealed
      → encrypt_foreign_tracker aes curve hkdf msg random (fill_bytes 20 a.r_base.0)
        ≡ ok (sealed, fill_bytes 20 a.s_base.0)
  unfolding encrypt_foreign_tracker
  encrypt-eq msg random r sealed some_random pos a h =
      rw
        (
          ne→==-false (length random) 0 some_random,
          ne→==-false (set_bytes random % curve_n) 0 pos,
          a.s_mult,
          a.r_lifts,
          a.s_of_r,
          set_bytes-fill_bytes 20 a.r_base.0 (omega (arith, a.r_small)),
          h,
        )
        refl

  decrypt-eq :
      (identity_key : List ℕ) (counter r s : ℕ) (sealed msg : List ℕ)
      → 16 ≤ length sealed
      → calculate_r aes identity_key counter ≡ ok r
      → r ≢ 0
      → (a : Agreement curve r s)
      → decrypt_eax aes
          (hkdf_sha256 hkdf (fill_bytes 20 a.s_shared.0) [] 32)
          (tracker_nonce a.r_base.0 a.s_base.0)
          []
          sealed
        ≡ ok msg
      → decrypt_foreign_tracker aes curve hkdf identity_key sealed
          (fill_bytes 20 a.s_base.0)
          counter
        ≡ ok msg
  unfolding decrypt_foreign_tracker
  decrypt-eq identity_key counter r s sealed msg long hr pos a h =
      rw
        (
          ltb-eq-false (length sealed) 16 long,
          hr,
          ne→==-false r 0 pos,
          a.r_mult,
          a.s_lifts,
          a.r_of_s,
          lift_same a.s_base.0 a.s_lift a.s_small a.s_lifts,
          ← a.agree,
        )
        h

  -- If HKDF gives as many bytes as are asked for, a report that a finder encrypts to the
  -- identifier that a tracker has at a time is decrypted with the identity key and that time, for
  -- a random scalar and a scalar of the tracker that are not zero and that agree as Diffie-Hellman
  -- scalars do.
  pub decrypt_foreign_tracker-encrypt_foreign_tracker :
      (identity_key msg random : List ℕ) (counter r : ℕ)
      → FillsOutput hkdf
      → calculate_r aes identity_key counter ≡ ok r
      → r ≢ 0
      → length random ≢ 0
      → set_bytes random % curve_n ≢ 0
      → Agreement curve r (set_bytes random % curve_n)
      → (eid sealed sx : List ℕ) × (generate_eid aes curve identity_key counter ≡ ok eid)
        × (encrypt_foreign_tracker aes curve hkdf msg random eid ≡ ok (sealed, sx))
        × (decrypt_foreign_tracker aes curve hkdf identity_key sealed sx counter ≡ ok msg)
  decrypt_foreign_tracker-encrypt_foreign_tracker identity_key msg random counter r fills hr pos
        some_random s_pos a =
      let k = hkdf_sha256 hkdf (fill_bytes 20 a.s_shared.0) [] 32 in
      let (sealed, seals, size, opens) =
        decrypt_eax-encrypt_eax aes k (tracker_nonce a.r_base.0 a.s_base.0) [] msg
          (key_fits (fill_bytes 20 a.s_shared.0)) in
      (
        fill_bytes 20 a.r_base.0,
        sealed,
        fill_bytes 20 a.s_base.0,
        generate_eid-eq identity_key counter r a.r_base hr pos a.r_mult,
        encrypt-eq msg random r sealed some_random s_pos a seals,
        decrypt-eq identity_key counter r _ sealed msg (omega arith) hr pos a opens,
      )
    where
      key_fits : (secret : List ℕ) → is_key_size (length (hkdf_sha256 hkdf secret [] 32)) ≡ true
      key_fits secret =
          unfold hkdf_sha256 is_key_size in
          rw (fills secret (replicate 32 0) [] 32 (omega arith)) refl
