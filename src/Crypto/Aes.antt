-- ===== src/Crypto/Aes.antt =====
-- crypto/aes and crypto/cipher of the Go library, as the source uses them. The permutation of a
-- block is a parameter; key sizes and counter mode are written out.
pub mod Laws
use google_find_my_tools_go.Prelude.{ℕ, zero, suc, ◌+◌, ◌/◌, ◌%◌, ◌≡◌, List, [], ◌∷◌, ◌++◌, length}
use google_find_my_tools_go.Prelude.{Bool, ◌||◌, ◌==◌, Result, ok, err, bit_xor, if◌then◌else◌}
use google_find_my_tools_go.GoErrors.{GoError, message}

abbrev pub block_size : ℕ
block_size = 16

-- AES under a key: the encryption of one block, which has 16 bytes again.
pub record BlockCipher : Type 0 where
  pub encrypt : List ℕ → List ℕ → List ℕ
  pub length-encrypt :
      (key block : List ℕ) → length block ≡ block_size → length (encrypt key block) ≡ block_size

-- aes.NewCipher: AES-128, AES-192 or AES-256.
unfoldable pub is_key_size : ℕ → Bool
is_key_size n = n == 16 || n == 24 || n == 32

abbrev pub invalid_key_size : GoError
invalid_key_size = message "crypto/aes: invalid key size"

unfoldable pub new_cipher : List ℕ → Result GoError (Unit {0})
unfolding is_key_size
new_cipher key = if is_key_size (length key) then ok tt else err invalid_key_size

-- dst[i] = a[i] ^ b[i]
unfoldable pub xor_bytes : List ℕ → List ℕ → List ℕ
xor_bytes [] bs = []
xor_bytes (a ∷ as') [] = []
xor_bytes (a ∷ as') (b ∷ bs) = bit_xor a b ∷ xor_bytes as' bs

-- The counter block as a big-endian number, plus one; the carry out of the top byte is dropped.
unfoldable pub increment_loop : List ℕ → List ℕ × ℕ
increment_loop [] = ([], 1)
increment_loop (b ∷ bs) =
    let (out, carry) = increment_loop bs in ((b + carry) % 256 ∷ out, (b + carry) / 256)

unfoldable pub increment : List ℕ → List ℕ
unfolding increment_loop
increment counter = (increment_loop counter).0

module _ (aes : BlockCipher) where
  -- The blocks E(iv), E(iv + 1), … of counter mode.
  unfoldable pub key_stream : ℕ → List ℕ → List ℕ → List ℕ
  key_stream zero key counter = []
  key_stream (suc n) key counter = aes.encrypt key counter ++ key_stream n key (increment counter)

  -- cipher.NewCTR(block, iv) and XORKeyStream over the whole input.
  unfoldable pub xor_key_stream : List ℕ → List ℕ → List ℕ → List ℕ
  xor_key_stream key iv input = xor_bytes input (key_stream (length input / block_size + 1) key iv)
