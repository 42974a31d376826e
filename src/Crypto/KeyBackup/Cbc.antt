-- ===== src/Crypto/KeyBackup/Cbc.antt =====
-- aesCBCNoPaddingDecrypt (pkg/googlefindmy/crypto/keybackup.go) against CBC encryption.
use google_find_my_tools_go.Prelude.{ℕ, zero, suc, ◌*◌, ◌/◌, ◌%◌, ◌≤◌, ◌≡◌, refl, ◌∙◌, arith, true}
use google_find_my_tools_go.Prelude.{
  List, [], ◌∷◌, ◌++◌, length, take, drop, length-append, length-take, length-drop, take-append_of,
  drop-append_of, take-append-drop, ok, ltb-eq-false, ◌==◌,
}
use google_find_my_tools_go.Crypto.Aes.{BlockCipher, block_size, new_cipher, is_key_size, xor_bytes}
use google_find_my_tools_go.Crypto.Aes.Laws.{length-xor_block, xor_bytes_cancel}
use google_find_my_tools_go.Crypto.KeyBackup.{Ciphers, cbc_blocks, aes_cbc_decrypt}

-- The decryption of a block undoes its encryption.
abbrev pub Inverse : BlockCipher → Ciphers → List ℕ → Type 0
Inverse aes ciphers key =
    (block : List ℕ)
    → length block ≡ block_size
    → ciphers.decrypt_block key (aes.encrypt key block) ≡ block

-- CBC encryption of `n` blocks, `prev` being the IV or the last ciphertext block.
abbrev pub cbc_encrypt : BlockCipher → ℕ → List ℕ → List ℕ → List ℕ → List ℕ
cbc_encrypt aes zero key prev text = []
cbc_encrypt aes (suc n) key prev text =
    let block = aes.encrypt key (xor_bytes (take block_size text) prev) in
    block ++ cbc_encrypt aes n key block (drop block_size text)

module _ (aes : BlockCipher) (ciphers : Ciphers) (key : List ℕ) where
  abbrev first_block : List ℕ → List ℕ → List ℕ
  first_block prev text = xor_bytes (take block_size text) prev

  length-first_block :
      (prev text : List ℕ)
      → length prev ≡ block_size
      → block_size ≤ length text
      → length (first_block prev text) ≡ block_size
  length-first_block prev text hp long =
      length-xor_block _ prev (length-take block_size text ∙ omega arith) hp

  length-encrypted :
      (prev text : List ℕ)
      → length prev ≡ block_size
      → block_size ≤ length text
      → length (aes.encrypt key (first_block prev text)) ≡ block_size
  length-encrypted prev text hp long =
      aes.length-encrypt key _ (length-first_block prev text hp long)

  pub length-cbc_encrypt :
      (n : ℕ) (prev text : List ℕ)
      → length prev ≡ block_size
      → length text ≡ n * block_size
      → length (cbc_encrypt aes n key prev text) ≡ n * block_size
  length-cbc_encrypt zero prev text hp h = omega arith
  length-cbc_encrypt (suc n) prev text hp h =
      let block = aes.encrypt key (first_block prev text) in
      let size = length-encrypted prev text hp (omega arith) in
      let rest =
        length-cbc_encrypt n block (drop block_size text) size
          (omega (arith, length-drop block_size text)) in
      omega (
        arith,
        size,
        rest,
        length-append block (cbc_encrypt aes n key block (drop block_size text)),
      )

  cbc_blocks-cbc_encrypt :
      (n : ℕ) (prev text : List ℕ)
      → Inverse aes ciphers key
      → length prev ≡ block_size
      → length text ≡ n * block_size
      → cbc_blocks ciphers n key prev (cbc_encrypt aes n key prev text) ≡ text
  unfolding cbc_blocks
  cbc_blocks-cbc_encrypt zero prev [] inverse hp h = refl
  cbc_blocks-cbc_encrypt zero prev (b ∷ bs) inverse hp h = ground arith
  cbc_blocks-cbc_encrypt (suc n) prev text inverse hp h =
      let block = aes.encrypt key (first_block prev text) in
      let rest = cbc_encrypt aes n key block (drop block_size text) in
      let size = length-encrypted prev text hp (omega arith) in
      rw
        (
          take-append_of block_size block rest size,
          drop-append_of block_size block rest size,
          inverse (first_block prev text) (length-first_block prev text hp (omega arith)),
          xor_bytes_cancel (take block_size text) prev (omega (arith, length-take block_size text)),
          cbc_blocks-cbc_encrypt n block (drop block_size text) inverse size
              (omega (arith, length-drop block_size text)),
        )
        (take-append-drop block_size text)

  -- aesCBCNoPaddingDecrypt reads back what CBC makes of whole blocks under an AES key.
  pub aes_cbc_decrypt-cbc_encrypt :
      (n : ℕ) (iv text : List ℕ)
      → Inverse aes ciphers key
      → is_key_size (length key) ≡ true
      → length iv ≡ block_size
      → length text ≡ n * block_size
      → aes_cbc_decrypt ciphers key (iv ++ cbc_encrypt aes n key iv text) ≡ ok text
  unfolding aes_cbc_decrypt new_cipher
  aes_cbc_decrypt-cbc_encrypt n iv text inverse good hi h =
      let ct = cbc_encrypt aes n key iv text in
      let size = length-cbc_encrypt n iv text hi h in
      rw
        (
          ltb-eq-false (length (iv ++ ct)) 16 (omega (arith, length-append iv ct)),
          take-append_of block_size iv ct hi,
          drop-append_of block_size iv ct hi,
          good,
          size,
          whole,
          count,
          cbc_blocks-cbc_encrypt n iv text inverse hi h,
        )
        refl
    where
      whole : (n * block_size % block_size == 0) ≡ true
      whole = ground arith

      count : n * block_size / block_size ≡ n
      count = omega arith
