-- ===== src/Crypto/Aes/Laws.antt =====
-- Lengths of blocks and streams, and counter mode as its own inverse.
use google_find_my_tools_go.Prelude.{
  ℕ, zero, suc, ◌+◌, ◌*◌, ◌/◌, ◌≤◌, ◌≡◌, refl, ap, ap₂, ◌∙◌, arith,
}
use google_find_my_tools_go.Prelude.{List, [], ◌∷◌, length, min, length-append}
use google_find_my_tools_go.Prelude.Bits.{bit_xor_cancel}
use google_find_my_tools_go.Crypto.Aes.{
  BlockCipher, block_size, xor_bytes, increment_loop, increment,
}
use google_find_my_tools_go.Crypto.Aes.{key_stream, xor_key_stream}

pub length-xor_bytes : (as' bs : List ℕ) → length (xor_bytes as' bs) ≡ min (length as') (length bs)
unfolding xor_bytes
length-xor_bytes [] bs = omega arith
length-xor_bytes (a ∷ as') [] = omega arith
length-xor_bytes (a ∷ as') (b ∷ bs) = omega (arith, length-xor_bytes as' bs)

pub length-xor_block :
    (a b : List ℕ)
    → length a ≡ block_size
    → length b ≡ block_size
    → length (xor_bytes a b) ≡ block_size
length-xor_block a b ha hb = omega (arith, length-xor_bytes a b)

-- A mask at least as long as the text cancels itself.
pub xor_bytes_cancel :
    (text mask : List ℕ) → length text ≤ length mask → xor_bytes (xor_bytes text mask) mask ≡ text
unfolding xor_bytes
xor_bytes_cancel [] mask h = refl
xor_bytes_cancel (a ∷ text) [] h = absurd (omega arith)
xor_bytes_cancel (a ∷ text) (b ∷ mask) h =
    ap₂ ◌∷◌ (bit_xor_cancel a b) (xor_bytes_cancel text mask (omega arith))

length-increment_loop : (c : List ℕ) → length (increment_loop c).0 ≡ length c
unfolding increment_loop
length-increment_loop [] = refl
length-increment_loop (b ∷ bs) = ap suc (length-increment_loop bs)

length-increment : (c : List ℕ) → length (increment c) ≡ length c
unfolding increment
length-increment c = length-increment_loop c

module _ (aes : BlockCipher) (key : List ℕ) where
  length-key_stream :
      (n : ℕ) (c : List ℕ)
      → length c ≡ block_size
      → length (key_stream aes n key c) ≡ n * block_size
  unfolding key_stream
  length-key_stream zero c h = omega arith
  length-key_stream (suc n) c h = omega (
    arith,
    length-append (aes.encrypt key c) (key_stream aes n key (increment c)),
    aes.length-encrypt key c h,
    length-increment c,
    length-key_stream n (increment c) (omega (arith, length-increment c)),
  )

  stream_long_enough :
      (iv input : List ℕ)
      → length iv ≡ block_size
      → length input ≤ length (key_stream aes (length input / block_size + 1) key iv)
  stream_long_enough iv input h =
      omega (arith, length-key_stream (length input / block_size + 1) iv h)

  pub length-xor_key_stream :
      (iv input : List ℕ)
      → length iv ≡ block_size
      → length (xor_key_stream aes key iv input) ≡ length input
  unfolding xor_key_stream
  length-xor_key_stream iv input h =
      omega (arith, length-xor_bytes input _, stream_long_enough iv input h)

  -- Counter mode with the same key and counter block gives the text back.
  pub xor_key_stream_cancel :
      (iv input : List ℕ)
      → length iv ≡ block_size
      → xor_key_stream aes key iv (xor_key_stream aes key iv input) ≡ input
  unfolding xor_key_stream
  xor_key_stream_cancel iv input h =
      ap
        (λ (n : ℕ).
          xor_bytes (xor_bytes input (stream input)) (key_stream aes (n / block_size + 1) key iv))
        (unfold xor_key_stream in length-xor_key_stream iv input h)
      ∙ xor_bytes_cancel input (stream input) (stream_long_enough iv input h)
    where
      stream : List ℕ → List ℕ
      stream text = key_stream aes (length text / block_size + 1) key iv
