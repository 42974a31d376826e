-- ===== src/Crypto/Eax.antt =====
-- pkg/googlefindmy/crypto/eax.go: CMAC, EAX and the helpers on blocks.
pub mod Subkey
pub mod Cmac
pub mod Rfc
pub mod Seal
use google_find_my_tools_go.Prelude.{ℕ, zero, suc, ◌+◌, ◌-◌, ◌*◌, ◌/◌, ◌%◌, not}
use google_find_my_tools_go.Prelude.{List, [], ◌∷◌, ◌++◌, length, take, drop, replicate, get_or}
use google_find_my_tools_go.Prelude.{Bool, ltb, ◌==◌, if◌then◌else◌, bit_or, bit_and, bit_xor}
use google_find_my_tools_go.Prelude.{Result, ok, err, ◌>>=◌, ◌>>◌, fail_if}
use google_find_my_tools_go.Bytes.{bytes_eq, slice}
use google_find_my_tools_go.GoErrors.{GoError, message}
use google_find_my_tools_go.Crypto.Aes.{
  BlockCipher, block_size, new_cipher, xor_bytes, xor_key_stream,
}

abbrev pub rb128 : List ℕ
rb128 = replicate 15 0 ++ 0x87 ∷ []

abbrev pub zero_block : List ℕ
zero_block = replicate 16 0

-- The loop of shiftLeft goes from the last byte to the first: the bytes and the carry so far.
unfoldable pub shift_loop : List ℕ → List ℕ × ℕ
shift_loop [] = ([], 0)
shift_loop (b ∷ bs) =
    let (out, carry) = shift_loop bs in (bit_or (b * 2 % 256) carry ∷ out, b / 128)

unfoldable pub shift_left : List ℕ → List ℕ
unfolding shift_loop
shift_left src = (shift_loop src).0

-- K1 from L, and K2 from K1.
unfoldable pub subkey : List ℕ → List ℕ
subkey b =
    if not (bit_and (get_or b 0 0) 0x80 == 0) then xor_bytes (shift_left b) rb128 else shift_left b

abbrev pub short_ciphertext : GoError
short_ciphertext = message "crypto: ciphertext shorter than tag"

abbrev pub tag_mismatch : GoError
tag_mismatch = message "crypto: EAX tag verification failed"

abbrev pub not_block_aligned : GoError
not_block_aligned = message "crypto: ECB input must be block-aligned"

module _ (aes : BlockCipher) (key : List ℕ) where
  -- the closure `encrypt` of cmac, on the chaining value `x`
  unfoldable pub absorb : List ℕ → List ℕ → List ℕ
  absorb x block = aes.encrypt key (xor_bytes x block)

  -- for i := …; i < numRegular; i++
  unfoldable pub absorb_blocks : List ℕ → ℕ → ℕ → List ℕ → List ℕ
  absorb_blocks input zero i x = x
  absorb_blocks input (suc n) i x =
      absorb_blocks input n (suc i) (absorb x (slice input (i * block_size) ((i + 1) * block_size)))

  -- copy(pad, rest); pad[len(rest)] = 0x80
  unfoldable pub padded : List ℕ → List ℕ
  padded rest = rest ++ 0x80 ∷ replicate (15 - length rest) 0

  unfoldable pub cmac : List ℕ → Result GoError (List ℕ)
  unfolding absorb absorb_blocks padded
  cmac input = do
    new_cipher key
    let k1 = subkey (aes.encrypt key zero_block)
    let k2 = subkey k1
    let n = length input / block_size
    let rem = length input % block_size
    let regular = (if rem == 0 then n - 1 else n)
    let x = absorb_blocks input regular 0 zero_block
    ok (
        if length input == 0
        then absorb zero_block (xor_bytes (padded []) k2)
        else if rem == 0
        then absorb x (xor_bytes (slice input ((n - 1) * block_size) (n * block_size)) k1)
        else absorb x (xor_bytes (padded (drop (n * block_size) input)) k2))

  unfoldable pub eax_omac : ℕ → List ℕ → Result GoError (List ℕ)
  eax_omac flag input = cmac (replicate 15 0 ++ flag ∷ input)

  -- tag[i] = nonceMac[i] ^ headerMac[i] ^ cipherMac[i]
  abbrev pub eax_tag : List ℕ → List ℕ → List ℕ → List ℕ
  eax_tag nonce_mac header_mac cipher_mac = xor_bytes (xor_bytes nonce_mac header_mac) cipher_mac

  unfoldable pub encrypt_eax : List ℕ → List ℕ → List ℕ → Result GoError (List ℕ)
  encrypt_eax nonce header plaintext = do
    new_cipher key
    nonce_mac ← eax_omac 0 nonce
    header_mac ← eax_omac 1 header
    let ciphertext = xor_key_stream aes key nonce_mac plaintext
    cipher_mac ← eax_omac 2 ciphertext
    ok (ciphertext ++ eax_tag nonce_mac header_mac cipher_mac)

  unfoldable pub decrypt_eax : List ℕ → List ℕ → List ℕ → Result GoError (List ℕ)
  decrypt_eax nonce header ciphertext_and_tag = do
    fail_if (ltb (length ciphertext_and_tag) 16) short_ciphertext
    let ciphertext = take (length ciphertext_and_tag - 16) ciphertext_and_tag
    let tag = drop (length ciphertext_and_tag - 16) ciphertext_and_tag
    new_cipher key
    nonce_mac ← eax_omac 0 nonce
    header_mac ← eax_omac 1 header
    let plaintext = xor_key_stream aes key nonce_mac ciphertext
    cipher_mac ← eax_omac 2 ciphertext
    fail_if (not (bytes_eq (eax_tag nonce_mac header_mac cipher_mac) tag)) tag_mismatch
    ok plaintext

  -- for i := 0; i < len(data); i += 16
  unfoldable pub ecb_blocks : ℕ → List ℕ → List ℕ
  ecb_blocks zero input = []
  ecb_blocks (suc n) input =
      aes.encrypt key (take block_size input) ++ ecb_blocks n (drop block_size input)

  unfoldable pub aes_ecb_encrypt : List ℕ → Result GoError (List ℕ)
  unfolding ecb_blocks
  aes_ecb_encrypt input = do
    new_cipher key
    fail_if (not (length input % block_size == 0)) not_block_aligned
    ok (ecb_blocks (length input / block_size) input)
