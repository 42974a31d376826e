-- ===== src/Crypto/KeyBackup.antt =====
-- pkg/googlefindmy/crypto/keybackup.go, the two GCM functions of eax.go and DecryptOwnReport of
-- location.go: the keys of the account, from the recovery key to a tracker's identity key.
use google_find_my_tools_go.Prelude.{
  ℕ, zero, suc, ◌+◌, ◌/◌, ◌%◌, Bool, true, false, not, ◌||◌, List, [], ◌∷◌, ◌++◌,
}
use google_find_my_tools_go.Prelude.{
  length, take, drop, ltb, ◌==◌, if◌then◌else◌, Result, ok, err, ◌>>=◌, ◌>>◌, fail_if,
}
use google_find_my_tools_go.GoErrors.{GoError, message}
use google_find_my_tools_go.Bytes.{codes, bytes_eq, slice}
use google_find_my_tools_go.Crypto.Aes.{BlockCipher, block_size, new_cipher, xor_bytes}
use google_find_my_tools_go.Crypto.ForeignTracker.{Hkdf}
pub mod Cbc
pub mod Boxes
pub mod SecureBox
mod Tests

-- crypto/aes, crypto/cipher and crypto/ecdh as this file uses them: the decryption of one block,
-- the Open method of GCM (key, nonce, ciphertext, associated data), and P-256.
pub record Ciphers : Type 0 where
  pub decrypt_block : List ℕ → List ℕ → List ℕ
  pub gcm_open : List ℕ → List ℕ → List ℕ → List ℕ → Result GoError (List ℕ)
  pub p256_private : List ℕ → Result GoError (List ℕ)
  pub p256_public : List ℕ → Result GoError (List ℕ)
  pub p256_ecdh : List ℕ → List ℕ → Result GoError (List ℕ)
  pub hkdf : Hkdf
  pub sha256 : List ℕ → List ℕ

abbrev pub short_for_gcm : GoError
short_for_gcm = message "crypto: ciphertext too short for GCM"

abbrev pub short_for_cbc : GoError
short_for_cbc = message "crypto: ciphertext too short for CBC"

-- CryptBlocks panics on input that is not made of whole blocks; its callers here never give any.
abbrev pub cbc_panic : GoError
cbc_panic = message "crypto/cipher: input not full blocks"

abbrev pub bad_version : GoError
bad_version = message "crypto: invalid version or data length"

abbrev pub data_too_short : GoError
data_too_short = message "crypto: encrypted data too short"

abbrev pub bad_eik_length : GoError
bad_eik_length = message "crypto: invalid encrypted EIK length"

abbrev pub bad_account_key_length : GoError
bad_account_key_length = message "crypto: invalid encrypted account key length"

abbrev pub securebox_version : List ℕ
securebox_version = 2 ∷ 0 ∷ []

-- append(append([]byte{}, securebox...), secureboxVersion...)
abbrev pub securebox_salt : List ℕ
securebox_salt = codes "SECUREBOX" ++ securebox_version

module _ (ciphers : Ciphers) where
  unfoldable pub gcm_decrypt_ad : List ℕ → List ℕ → List ℕ → Result GoError (List ℕ)
  gcm_decrypt_ad key ciphertext_and_iv ad = do
    fail_if (ltb (length ciphertext_and_iv) 12) short_for_gcm
    let iv = take 12 ciphertext_and_iv
    let ct = drop 12 ciphertext_and_iv
    new_cipher key
    ciphers.gcm_open key iv ct ad

  unfoldable pub gcm_decrypt : List ℕ → List ℕ → Result GoError (List ℕ)
  gcm_decrypt key ciphertext_and_iv = do
    fail_if (ltb (length ciphertext_and_iv) 12) short_for_gcm
    let iv = take 12 ciphertext_and_iv
    let ct = drop 12 ciphertext_and_iv
    new_cipher key
    ciphers.gcm_open key iv ct []

  -- CryptBlocks of a CBC decrypter over `n` blocks: `prev` is the IV or the last ciphertext block.
  unfoldable pub cbc_blocks : ℕ → List ℕ → List ℕ → List ℕ → List ℕ
  cbc_blocks zero key prev ct = []
  cbc_blocks (suc n) key prev ct =
      xor_bytes (ciphers.decrypt_block key (take block_size ct)) prev
      ++ cbc_blocks n key (take block_size ct) (drop block_size ct)

  unfoldable pub aes_cbc_decrypt : List ℕ → List ℕ → Result GoError (List ℕ)
  unfolding cbc_blocks
  aes_cbc_decrypt key data_and_iv = do
    fail_if (ltb (length data_and_iv) 16) short_for_cbc
    let iv = take 16 data_and_iv
    let ct = drop 16 data_and_iv
    new_cipher key
    fail_if (not (length ct % block_size == 0)) cbc_panic
    ok (cbc_blocks (length ct / block_size) key iv ct)

  -- DecryptEIK: 48 bytes are CBC, 60 bytes are GCM.
  unfoldable pub decrypt_eik : List ℕ → List ℕ → Result GoError (List ℕ)
  decrypt_eik owner_key encrypted =
      if length encrypted == 48
      then aes_cbc_decrypt owner_key encrypted
      else if length encrypted == 60
      then gcm_decrypt owner_key encrypted
      else err bad_eik_length

  -- DecryptAccountKey: 32 bytes are CBC, 44 bytes are GCM.
  unfoldable pub decrypt_account_key : List ℕ → List ℕ → Result GoError (List ℕ)
  decrypt_account_key owner_key encrypted =
      if length encrypted == 32
      then aes_cbc_decrypt owner_key encrypted
      else if length encrypted == 44
      then gcm_decrypt owner_key encrypted
      else err bad_account_key_length

  abbrev pub decrypt_owner_key : List ℕ → List ℕ → Result GoError (List ℕ)
  decrypt_owner_key shared_key encrypted = gcm_decrypt shared_key encrypted

  abbrev pub decrypt_security_domain_key : List ℕ → List ℕ → Result GoError (List ℕ)
  decrypt_security_domain_key application_key encrypted = gcm_decrypt application_key encrypted

  unfoldable pub derive_key_using_hkdf : List ℕ → List ℕ → List ℕ → List ℕ
  derive_key_using_hkdf input_key salt info = ciphers.hkdf input_key salt info 16

  unfoldable pub p256_shared_secret : List ℕ → List ℕ → Result GoError (List ℕ)
  p256_shared_secret private_key public_key = do
    priv ←
        ciphers.p256_private
          (if ltb 32 (length private_key) then take 32 private_key else private_key)
    pub_key ← ciphers.p256_public public_key
    ciphers.p256_ecdh priv pub_key

  -- The key of the box: derived from the private key alone, or from the shared secret with the
  -- public key that the box carries.
  unfoldable pub box_key : Bool → List ℕ → List ℕ → List ℕ → Result GoError (List ℕ)
  box_key false box private_key info = ok (derive_key_using_hkdf private_key securebox_salt info)
  box_key true box private_key info = do
    shared ← p256_shared_secret private_key (slice box 2 (2 + 65))
    ok (derive_key_using_hkdf shared securebox_salt info)

  unfoldable pub decrypt_with_derived_key :
      List ℕ → List ℕ → List ℕ → List ℕ → Bool → Result GoError (List ℕ)
  unfolding box_key
  decrypt_with_derived_key box private_key info aad derive_with_public_key = do
    fail_if (ltb (length box) 2 || not (bytes_eq (take 2 box) securebox_version)) bad_version
    let offset = (if derive_with_public_key then 65 else 0)
    fail_if (ltb (length box) (2 + offset + 12)) data_too_short
    derived ← box_key derive_with_public_key box private_key info
    gcm_decrypt_ad derived (drop (2 + offset) box) aad

  unfoldable pub decrypt_shared_key : List ℕ → List ℕ → Result GoError (List ℕ)
  decrypt_shared_key security_domain_key encrypted =
      decrypt_with_derived_key encrypted security_domain_key (codes "P256 HKDF-SHA-256 AES-128-GCM")
        (codes "V1 shared_key") true

  unfoldable pub decrypt_application_key : List ℕ → List ℕ → Result GoError (List ℕ)
  decrypt_application_key recovery_key encrypted =
      decrypt_with_derived_key encrypted recovery_key (codes "SHARED HKDF-SHA-256 AES-128-GCM")
        (codes "V1 encrypted_application_key") false

  unfoldable pub decrypt_recovery_key : List ℕ → List ℕ → Result GoError (List ℕ)
  decrypt_recovery_key lskf_hash encrypted =
      decrypt_with_derived_key encrypted lskf_hash (codes "SHARED HKDF-SHA-256 AES-128-GCM")
        (codes "V1 locally_encrypted_recovery_key") false

  -- DecryptOwnReport
  unfoldable pub decrypt_own_report : List ℕ → List ℕ → Result GoError (List ℕ)
  decrypt_own_report identity_key encrypted = gcm_decrypt (ciphers.sha256 identity_key) encrypted
