-- ===== src/Crypto/Tests.antt =====
-- The theorems of the key and report encryption at concrete inputs, with a toy block cipher and the
-- base point of the curve.
use google_find_my_tools_go.Prelude.{ℕ, ◌+◌, ◌%◌, ◌<◌, ◌≡◌, ◌≢◌, refl, arith}
use google_find_my_tools_go.Prelude.{
  some, ok, err, List, [], ◌∷◌, ◌++◌, length, replicate, length-replicate,
}
use google_find_my_tools_go.BigEndian.{set_bytes, put_uint32}
use google_find_my_tools_go.Crypto.Aes.{
  BlockCipher, is_key_size, xor_bytes, xor_key_stream, key_stream, new_cipher,
}
use google_find_my_tools_go.Bytes.{bytes_eq}
use google_find_my_tools_go.Crypto.Eax.{
  cmac, encrypt_eax, decrypt_eax, shift_left, eax_omac, subkey, shift_loop, absorb, absorb_blocks,
  padded, tag_mismatch, aes_ecb_encrypt, ecb_blocks,
}
use google_find_my_tools_go.Crypto.Eax.Rfc.{cmac-rfc_cmac, rfc_cmac}
use google_find_my_tools_go.Crypto.Eax.Seal.{decrypt_eax-encrypt_eax, decrypt_eax_sound}
use google_find_my_tools_go.Crypto.BigInt.{fill_bytes, mod_pow}
use google_find_my_tools_go.Crypto.Curve.{curve_p, curve_n, curve_gx, curve_gy, point_from_x}
use google_find_my_tools_go.Crypto.Curve.Lift.{OnCurve, point_from_x_sound}
use google_find_my_tools_go.Crypto.Eid.{
  Multiplication, calculate_r, generate_eid, eid_block, masked_timestamp,
}
use google_find_my_tools_go.Crypto.ForeignTracker.{
  Hkdf, encrypt_foreign_tracker, decrypt_foreign_tracker,
}
use google_find_my_tools_go.Crypto.ForeignTracker.RoundTrip.{
  Agreement, FillsOutput, decrypt_foreign_tracker-encrypt_foreign_tracker,
}

-- A cipher that turns every block of 16 bytes round by its key's first bytes: here, the identity.
abbrev toy : BlockCipher
toy = record { encrypt = λ key block. block; length-encrypt = λ key block h. h }

abbrev key : List ℕ
key = replicate 16 5

cmac-rfc_cmac_example : cmac toy key (1 ∷ 2 ∷ 3 ∷ []) ≡ ok (rfc_cmac toy key (1 ∷ 2 ∷ 3 ∷ []))
unfolding is_key_size
cmac-rfc_cmac_example = cmac-rfc_cmac toy key (1 ∷ 2 ∷ 3 ∷ []) refl

decrypt_eax-encrypt_eax_example :
    (sealed : List ℕ) × (encrypt_eax toy key (9 ∷ []) [] (1 ∷ 2 ∷ 3 ∷ []) ≡ ok sealed)
    × (length sealed ≡ 3 + 16)
    × (decrypt_eax toy key (9 ∷ []) [] sealed ≡ ok (1 ∷ 2 ∷ 3 ∷ []))
unfolding is_key_size
decrypt_eax-encrypt_eax_example = decrypt_eax-encrypt_eax toy key (9 ∷ []) [] (1 ∷ 2 ∷ 3 ∷ []) refl

-- The sealing of the empty message under the empty nonce: only its tag.
abbrev sealed_empty : List ℕ
sealed_empty = replicate 15 0 ++ 3 ∷ []

opens_empty : decrypt_eax toy key [] [] sealed_empty ≡ ok []
unfolding decrypt_eax eax_omac cmac subkey shift_left shift_loop xor_bytes xor_key_stream key_stream
    new_cipher is_key_size bytes_eq absorb absorb_blocks padded
opens_empty = refl

decrypt_eax_sound_example : encrypt_eax toy key [] [] [] ≡ ok sealed_empty
decrypt_eax_sound_example = decrypt_eax_sound toy key [] [] sealed_empty [] opens_empty

-- Another tag of 16 bytes; no message has it.
abbrev forged : List ℕ
forged = replicate 16 0

forged_refused : decrypt_eax toy key [] [] forged ≡ err tag_mismatch
unfolding decrypt_eax eax_omac cmac subkey shift_left shift_loop xor_bytes xor_key_stream key_stream
    new_cipher is_key_size bytes_eq absorb absorb_blocks padded
forged_refused = refl

forged_not_sealed : (plaintext : List ℕ) → encrypt_eax toy key [] [] plaintext ≢ ok forged
unfolding is_key_size
forged_not_sealed plaintext h =
    let (sealed, seals, size, opens) = decrypt_eax-encrypt_eax toy key [] [] plaintext refl in
    cc forged_refused

lifts : point_from_x (fill_bytes 20 curve_gx) ≡ some (curve_gx, curve_gy)
unfolding point_from_x fill_bytes set_bytes mod_pow
lifts = refl

point_from_x_sound_example :
    (curve_gx ≡ set_bytes (fill_bytes 20 curve_gx))
    × (curve_gx < curve_p)
    × (curve_gy < curve_p)
    × (curve_gy % 2 ≡ 0)
    × OnCurve curve_gx curve_gy
point_from_x_sound_example = point_from_x_sound (fill_bytes 20 curve_gx) curve_gx curve_gy lifts

-- A group of one point: every multiple is the base point.
abbrev constant_curve : Multiplication
constant_curve = record {
  scalar_base_mult = λ k. some (curve_gx, curve_gy);
  scalar_mult = λ p k. some (curve_gx, curve_gy);
}

abbrev identity_key : List ℕ
identity_key = replicate 32 7

abbrev zeros : Hkdf
zeros secret salt info n = replicate n 0

zeros-FillsOutput : FillsOutput zeros
zeros-FillsOutput secret salt info n small = length-replicate n 0

-- The scalar that the toy cipher derives from time 0.
abbrev derived : ℕ
derived = set_bytes (replicate 11 0xff ++ 10 ∷ replicate 15 0 ++ 10 ∷ replicate 4 0) % curve_n

derives : calculate_r toy identity_key 0 ≡ ok derived
unfolding calculate_r eid_block masked_timestamp put_uint32 aes_ecb_encrypt ecb_blocks new_cipher
    is_key_size set_bytes
derives = refl

agreement : Agreement constant_curve derived (set_bytes (1 ∷ []) % curve_n)
agreement = record {
  r_base = (curve_gx, curve_gy);
  s_base = (curve_gx, curve_gy);
  r_lift = (curve_gx, curve_gy);
  s_lift = (curve_gx, curve_gy);
  r_shared = (curve_gx, curve_gy);
  s_shared = (curve_gx, curve_gy);
  r_mult = refl;
  s_mult = refl;
  r_small = omega arith;
  s_small = omega arith;
  r_lifts = lifts;
  s_lifts = lifts;
  s_of_r = refl;
  r_of_s = refl;
  agree = refl;
}

decrypt_foreign_tracker-encrypt_foreign_tracker_example :
    (eid sealed sx : List ℕ) × (generate_eid toy constant_curve identity_key 0 ≡ ok eid)
    × (encrypt_foreign_tracker toy constant_curve zeros (1 ∷ 2 ∷ []) (1 ∷ []) eid ≡ ok (sealed, sx))
    × (decrypt_foreign_tracker toy constant_curve zeros identity_key sealed sx 0 ≡ ok (1 ∷ 2 ∷ []))
unfolding set_bytes
decrypt_foreign_tracker-encrypt_foreign_tracker_example =
    decrypt_foreign_tracker-encrypt_foreign_tracker toy constant_curve zeros identity_key
      (1 ∷ 2 ∷ []) (1 ∷ []) 0 derived zeros-FillsOutput derives (omega arith) (omega arith)
      (omega arith) agreement
