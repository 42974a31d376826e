-- ===== src/Crypto/KeyBackup/Boxes.antt =====
-- DecryptEIK and DecryptAccountKey (pkg/googlefindmy/crypto/keybackup.go) read back what was
-- encrypted with CBC or GCM.
use google_find_my_tools_go.Prelude.{ℕ, ◌+◌, ◌^◌, ◌<◌, ◌≡◌, arith, true}
use google_find_my_tools_go.Prelude.{
  List, [], ◌++◌, length, length-append, take-append_of, drop-append_of, ok, ltb-eq-false,
}
use google_find_my_tools_go.Crypto.Aes.{BlockCipher, block_size, new_cipher, is_key_size}
use google_find_my_tools_go.Crypto.KeyBackup.{
  Ciphers, gcm_decrypt, gcm_decrypt_ad, decrypt_eik, decrypt_account_key,
}
use google_find_my_tools_go.Crypto.KeyBackup.Cbc.{
  Inverse, cbc_encrypt, length-cbc_encrypt, aes_cbc_decrypt-cbc_encrypt,
}

-- The Seal method of GCM (key, nonce, plaintext, associated data).
abbrev pub Seal : Type 0
Seal = List ℕ → List ℕ → List ℕ → List ℕ → List ℕ

-- What GCM promises under an AES key and a nonce of 12 bytes, for a plaintext of less than 4 GiB:
-- Open undoes Seal, and a tag of 16 bytes is added.
pub record Opens (ciphers : Ciphers) (seal : Seal) : Type 0 where
  pub opens :
      (key iv text ad : List ℕ)
      → is_key_size (length key) ≡ true
      → length iv ≡ 12
      → length text < 2 ^ 32
      → (ciphers.gcm_open key iv (seal key iv text ad) ad ≡ ok text)
        × (length (seal key iv text ad) ≡ length text + 16)

module _ (ciphers : Ciphers) (seal : Seal) where
  pub gcm_decrypt_ad-seal :
      (key iv text ad : List ℕ)
      → Opens ciphers seal
      → is_key_size (length key) ≡ true
      → length iv ≡ 12
      → length text < 2 ^ 32
      → gcm_decrypt_ad ciphers key (iv ++ seal key iv text ad) ad ≡ ok text
  unfolding gcm_decrypt_ad new_cipher
  gcm_decrypt_ad-seal key iv text ad gcm good hi small =
      let ct = seal key iv text ad in
      rw
        (
          ltb-eq-false (length (iv ++ ct)) 12 (omega (arith, length-append iv ct)),
          take-append_of 12 iv ct hi,
          drop-append_of 12 iv ct hi,
          good,
        )
        (gcm.opens key iv text ad good hi small).0

  gcm_decrypt-seal :
      (key iv text : List ℕ)
      → Opens ciphers seal
      → is_key_size (length key) ≡ true
      → length iv ≡ 12
      → length text < 2 ^ 32
      → gcm_decrypt ciphers key (iv ++ seal key iv text []) ≡ ok text
  unfolding gcm_decrypt gcm_decrypt_ad
  gcm_decrypt-seal key iv text gcm good hi small =
      gcm_decrypt_ad-seal key iv text [] gcm good hi small

module _ (aes : BlockCipher) (ciphers : Ciphers) (seal : Seal) where
  -- If AES and GCM decrypt what they encrypt, DecryptEIK reads an identity key of 32 bytes back
  -- from both of its encodings under the owner key (of 16, 24 or 32 bytes): CBC with an IV of 16
  -- bytes, and GCM with a nonce of 12.
  pub decrypt_eik_reads :
      (owner_key eik iv nonce : List ℕ)
      → Inverse aes ciphers owner_key
      → Opens ciphers seal
      → is_key_size (length owner_key) ≡ true
      → length eik ≡ 32
      → length iv ≡ block_size
      → length nonce ≡ 12
      → (decrypt_eik ciphers owner_key (iv ++ cbc_encrypt aes 2 owner_key iv eik) ≡ ok eik)
        × (decrypt_eik ciphers owner_key (nonce ++ seal owner_key nonce eik []) ≡ ok eik)
  unfolding decrypt_eik
  decrypt_eik_reads owner_key eik iv nonce inverse gcm good he hi hn = (
    rw
        (
          length-append iv (cbc_encrypt aes 2 owner_key iv eik),
          hi,
          length-cbc_encrypt aes ciphers owner_key 2 iv eik hi he,
        )
        (aes_cbc_decrypt-cbc_encrypt aes ciphers owner_key 2 iv eik inverse good hi he),
    rw
        (
          length-append nonce (seal owner_key nonce eik []),
          hn,
          (gcm.opens owner_key nonce eik [] good hn (omega arith)).1,
          he,
        )
        (gcm_decrypt-seal ciphers seal owner_key nonce eik gcm good hn (omega arith)),
  )

  -- If AES and GCM decrypt what they encrypt, DecryptAccountKey reads an account key of 16 bytes
  -- back from both of its encodings under the owner key: CBC with an IV of 16 bytes, and GCM with
  -- a nonce of 12.
  pub decrypt_account_key_reads :
      (owner_key account_key iv nonce : List ℕ)
      → Inverse aes ciphers owner_key
      → Opens ciphers seal
      → is_key_size (length owner_key) ≡ true
      → length account_key ≡ 16
      → length iv ≡ block_size
      → length nonce ≡ 12
      → (decrypt_account_key ciphers owner_key (iv ++ cbc_encrypt aes 1 owner_key iv account_key)
          ≡ ok account_key)
        × (decrypt_account_key ciphers owner_key (nonce ++ seal owner_key nonce account_key [])
            ≡ ok account_key)
  unfolding decrypt_account_key
  decrypt_account_key_reads owner_key account_key iv nonce inverse gcm good he hi hn = (
    rw
        (
          length-append iv (cbc_encrypt aes 1 owner_key iv account_key),
          hi,
          length-cbc_encrypt aes ciphers owner_key 1 iv account_key hi he,
        )
        (aes_cbc_decrypt-cbc_encrypt aes ciphers owner_key 1 iv account_key inverse good hi he),
    rw
        (
          length-append nonce (seal owner_key nonce account_key []),
          hn,
          (gcm.opens owner_key nonce account_key [] good hn (omega arith)).1,
          he,
        )
        (gcm_decrypt-seal ciphers seal owner_key nonce account_key gcm good hn (omega arith)),
  )
