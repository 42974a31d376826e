-- ===== src/Crypto/Eax/Rfc.antt =====
-- cmac of pkg/googlefindmy/crypto/eax.go against RFC 4493, written down from its sections 2.3 and
-- 2.4.
use google_find_my_tools_go.Prelude.{
  ℕ, zero, suc, ◌+◌, ◌-◌, ◌*◌, ◌/◌, ◌%◌, ◌≤◌, ◌<◌, ◌≡◌, ◌≢◌, refl, ap, ap₂, sym, ◌∙◌, arith, Bool,
  true, false, not, List, [], ◌∷◌, ◌++◌, length, take, drop, replicate, get_or, bit_or, bit_and,
  bit_xor, ◌==◌, if◌then◌else◌, ok, ℕ_discrete, length-drop,
}
use google_find_my_tools_go.Prelude.Bits.{and_top, bit_or_zero, bit_xor_zero}
use google_find_my_tools_go.Crypto.Aes.{BlockCipher, is_key_size, xor_bytes}
use google_find_my_tools_go.Crypto.Eax.{subkey, shift_left, shift_loop, zero_block, padded, cmac}
use google_find_my_tools_go.Crypto.Eax.Subkey.{length-shift_left, length-subkey}
use google_find_my_tools_go.Crypto.Eax.Cmac.{last_step, block_chain, block_cmac, cmac-block_cmac}

-- A string of bytes shifted left by one bit: each byte takes the top bit of the next one.
abbrev rfc_shift : List ℕ → List ℕ
rfc_shift [] = []
rfc_shift (b ∷ []) = b * 2 % 256 ∷ []
rfc_shift (b ∷ c ∷ bs) = bit_or (b * 2 % 256) (c / 128) ∷ rfc_shift (c ∷ bs)

-- Exclusive or with const_Rb, which is 0x87 in the last byte.
abbrev rfc_xor_rb : List ℕ → List ℕ
rfc_xor_rb [] = []
rfc_xor_rb (b ∷ []) = bit_xor b 0x87 ∷ []
rfc_xor_rb (b ∷ c ∷ bs) = b ∷ rfc_xor_rb (c ∷ bs)

abbrev first_byte : List ℕ → ℕ
first_byte [] = 0
first_byte (b ∷ bs) = b

-- Steps 2 and 3 of Generate_Subkey, on the most significant bit.
abbrev rfc_double : List ℕ → List ℕ
rfc_double l = if first_byte l / 128 % 2 == 0 then rfc_shift l else rfc_xor_rb (rfc_shift l)

-- padding(x): the bit 1 and as many bits 0 as complete the block.
abbrev rfc_padding : List ℕ → List ℕ
rfc_padding x = take 16 (x ++ 0x80 ∷ replicate 16 0)

module _ (aes : BlockCipher) (key : List ℕ) where
  abbrev rfc_k1 : List ℕ
  rfc_k1 = rfc_double (aes.encrypt key (replicate 16 0))

  abbrev rfc_k2 : List ℕ
  rfc_k2 = rfc_double rfc_k1

  -- Steps 4 and 6 (end): M_last, and T.
  abbrev rfc_tag : List ℕ → List ℕ → List ℕ
  rfc_tag x last =
      if length last == 16
      then aes.encrypt key (xor_bytes x (xor_bytes last rfc_k1))
      else aes.encrypt key (xor_bytes x (xor_bytes (rfc_padding last) rfc_k2))

  -- Step 6, with `n` blocks before the last.
  abbrev rfc_steps : ℕ → List ℕ → List ℕ → List ℕ
  rfc_steps zero x message = rfc_tag x message
  rfc_steps (suc n) x message =
      rfc_steps n (aes.encrypt key (xor_bytes x (take 16 message))) (drop 16 message)

  abbrev pub rfc_cmac : List ℕ → List ℕ
  rfc_cmac message = rfc_steps ((length message - 1) / 16) (replicate 16 0) message

shift_loop-carry : (b : ℕ) (bs : List ℕ) → (shift_loop (b ∷ bs)).1 ≡ b / 128
unfolding shift_loop
shift_loop-carry b bs = refl

shift_left-rfc_shift : (bs : List ℕ) → shift_left bs ≡ rfc_shift bs
unfolding shift_left shift_loop
shift_left-rfc_shift [] = refl
shift_left-rfc_shift (b ∷ []) = ap (λ t. t ∷ []) (bit_or_zero (b * 2 % 256))
shift_left-rfc_shift (b ∷ c ∷ bs) =
    ap (λ t. bit_or (b * 2 % 256) (c / 128) ∷ t) (shift_left-rfc_shift (c ∷ bs))

xor_bytes-rfc_xor_rb :
    (n : ℕ) (bs : List ℕ)
    → length bs ≡ suc n
    → xor_bytes bs (replicate n 0 ++ 0x87 ∷ []) ≡ rfc_xor_rb bs
unfolding xor_bytes
xor_bytes-rfc_xor_rb n [] h = absurd (omega arith)
xor_bytes-rfc_xor_rb zero (b ∷ []) h = refl
xor_bytes-rfc_xor_rb zero (b ∷ c ∷ bs) h = absurd (omega arith)
xor_bytes-rfc_xor_rb (suc n) (b ∷ []) h = absurd (omega arith)
xor_bytes-rfc_xor_rb (suc n) (b ∷ c ∷ bs) h =
    ap₂ ◌∷◌ (bit_xor_zero b) (xor_bytes-rfc_xor_rb n (c ∷ bs) (omega arith))

first_byte-get_or : (bs : List ℕ) → get_or bs 0 0 ≡ first_byte bs
first_byte-get_or [] = refl
first_byte-get_or (b ∷ bs) = refl

top_test : (x : ℕ) → (bit_and x 0x80 == 0) ≡ (x / 128 % 2 == 0)
top_test x = ground (arith, and_top x)

on_top :
    (t : Bool) (xs ys zs : List ℕ) → xs ≡ ys → (if not t then xs else zs) ≡ (if t then zs else ys)
on_top true xs ys zs h = refl
on_top false xs ys zs h = h

subkey-rfc_double : (bs : List ℕ) → length bs ≡ 16 → subkey bs ≡ rfc_double bs
unfolding subkey
subkey-rfc_double bs h =
    rw (first_byte-get_or bs, top_test (first_byte bs), shift_left-rfc_shift bs)
      (on_top (first_byte bs / 128 % 2 == 0) _ _ _ (
        xor_bytes-rfc_xor_rb 15 (rfc_shift bs)
          (rw (← shift_left-rfc_shift bs) (length-shift_left bs ∙ h))))

-- Fewer than 16 bytes, completed by one byte and zeros.
take-replicate : (m k : ℕ) → m ≤ k → take m (replicate {A = ℕ} k 0) ≡ replicate m 0
take-replicate zero k h = refl
take-replicate (suc m) zero h = absurd (omega arith)
take-replicate (suc m) (suc k) h = ap (λ (t : List ℕ). 0 ∷ t) (take-replicate m k (omega arith))

filled :
    (m k n : ℕ) (xs : List ℕ)
    → length xs + suc m ≡ n
    → n ≤ k
    → take n (xs ++ 0x80 ∷ replicate k 0) ≡ xs ++ 0x80 ∷ replicate m 0
filled m k zero xs h le = absurd (omega arith)
filled m k (suc n) [] h le = ap (λ t. 0x80 ∷ t) (rw same (take-replicate m k (omega arith)))
  where
    same : n ≡ m
    same = omega arith
filled m k (suc n) (x ∷ xs) h le = ap (λ t. x ∷ t) (filled m k n xs (omega arith) (omega arith))

module _ (aes : BlockCipher) (key : List ℕ) where
  padded-rfc_padding : (xs : List ℕ) → length xs < 16 → padded aes key xs ≡ rfc_padding xs
  unfolding padded
  padded-rfc_padding xs h = sym (filled (15 - length xs) 16 16 xs (omega arith) (omega arith))

  first_subkey : subkey (aes.encrypt key zero_block) ≡ rfc_k1 aes key
  first_subkey =
      subkey-rfc_double (aes.encrypt key zero_block) (aes.length-encrypt key zero_block refl)

  second_subkey : subkey (subkey (aes.encrypt key zero_block)) ≡ rfc_k2 aes key
  second_subkey =
      subkey-rfc_double (subkey (aes.encrypt key zero_block))
        (length-subkey (aes.encrypt key zero_block) (aes.length-encrypt key zero_block refl))
      ∙ ap rfc_double first_subkey

  last_step-rfc_tag :
      (x last : List ℕ) → length last ≤ 16 → last_step aes key x last ≡ rfc_tag aes key x last
  unfolding last_step
  last_step-rfc_tag x last h = elim (ℕ_discrete (length last) 16) [
    | yes full ↦ rw (full, first_subkey) refl
    | no partial ↦ rw (is_partial partial) (
        ap₂ (λ block k2. aes.encrypt key (xor_bytes x (xor_bytes block k2)))
          (padded-rfc_padding last (omega arith)) second_subkey)
  ]
    where
      is_partial : length last ≢ 16 → (length last == 16) ≡ false
      is_partial e = ground arith

  block_chain-rfc_steps :
      (n : ℕ) (x message : List ℕ)
      → length message ≤ suc n * 16
      → block_chain aes key n x message ≡ rfc_steps aes key n x message
  unfolding block_chain
  block_chain-rfc_steps zero x message h = last_step-rfc_tag x message (omega arith)
  block_chain-rfc_steps (suc n) x message h =
      block_chain-rfc_steps n (aes.encrypt key (xor_bytes x (take 16 message))) (drop 16 message)
        (omega (arith, length-drop 16 message))

  -- With a key of 16, 24 or 32 bytes cmac returns the CMAC of RFC 4493 (with AES under that key),
  -- for a message of any length, the empty one included: the subkeys are the doublings of the
  -- encrypted zero block, with 0x87 in the last byte where a top bit falls out, a complete last
  -- block is masked by the first, and any other is completed by a bit 1 and zeros and masked by the
  -- second.
  pub cmac-rfc_cmac :
      (input : List ℕ)
      → is_key_size (length key) ≡ true
      → cmac aes key input ≡ ok (rfc_cmac aes key input)
  unfolding block_cmac
  cmac-rfc_cmac input h =
      cmac-block_cmac aes key input h
      ∙ ap ok (block_chain-rfc_steps ((length input - 1) / 16) zero_block input (omega arith))
