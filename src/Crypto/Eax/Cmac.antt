-- ===== src/Crypto/Eax/Cmac.antt =====
-- cmac as a chain over the message, block by block, with the subkeys and the padding of the code.
use google_find_my_tools_go.Prelude.{
  ℕ, zero, suc, ◌+◌, ◌-◌, ◌*◌, ◌/◌, ◌%◌, ◌≤◌, ◌<◌, ◌≡◌, refl, ap, ◌∙◌, arith,
}
use google_find_my_tools_go.Prelude.{List, [], ◌∷◌, length, take, drop, replicate, length-append}
use google_find_my_tools_go.Prelude.{
  length-replicate, length-drop, length-take, ◌==◌, if◌then◌else◌, ok,
}
use google_find_my_tools_go.Prelude.{take_whole, drop-drop, true, false, ℕ_discrete, ◌≢◌}
use google_find_my_tools_go.Crypto.Aes.{BlockCipher, block_size, new_cipher, is_key_size, xor_bytes}
use google_find_my_tools_go.Crypto.Aes.Laws.{length-xor_block}
use google_find_my_tools_go.Crypto.Eax.{subkey, zero_block, absorb, absorb_blocks, padded, cmac}
use google_find_my_tools_go.Crypto.Eax.Subkey.{length-subkey}

module _ (aes : BlockCipher) (key : List ℕ) where
  abbrev k1 : List ℕ
  k1 = subkey (aes.encrypt key zero_block)

  abbrev k2 : List ℕ
  k2 = subkey k1

  -- A last block that is complete is masked by K1, any other is padded and masked by K2.
  unfoldable pub last_step : List ℕ → List ℕ → List ℕ
  last_step x last =
      if length last == block_size
      then aes.encrypt key (xor_bytes x (xor_bytes last k1))
      else aes.encrypt key (xor_bytes x (xor_bytes (padded aes key last) k2))

  -- `n` blocks before the last.
  unfoldable pub block_chain : ℕ → List ℕ → List ℕ → List ℕ
  block_chain zero x rest = last_step x rest
  block_chain (suc n) x rest =
      block_chain n (aes.encrypt key (xor_bytes x (take block_size rest))) (drop block_size rest)

  unfoldable pub block_cmac : List ℕ → List ℕ
  block_cmac input = block_chain ((length input - 1) / block_size) zero_block input

  chain-eq :
      (input : List ℕ) (n i : ℕ) (x : List ℕ)
      → block_chain n x (drop (i * block_size) input)
        ≡ last_step (absorb_blocks aes key input n i x) (drop ((i + n) * block_size) input)
  unfolding block_chain absorb_blocks absorb
  chain-eq input zero i x =
      ap (λ (t : ℕ). last_step x (drop t input)) {y = (i + 0) * block_size} (omega arith)
  chain-eq input (suc n) i x =
      rw (drop-drop block_size (i * block_size) input, next_start, next_end, one_block)
        (chain-eq input n (suc i)
          (aes.encrypt key (xor_bytes x (take block_size (drop (i * block_size) input)))))
    where
      next_start : i * block_size + block_size ≡ suc i * block_size
      next_start = omega arith

      next_end : i + suc n ≡ suc i + n
      next_end = omega arith

      one_block : (i + 1) * block_size - i * block_size ≡ block_size
      one_block = omega arith

  block_cmac-eq :
      (input : List ℕ)
      → block_cmac input
        ≡ last_step
            (absorb_blocks aes key input ((length input - 1) / block_size) 0 zero_block)
            (drop ((length input - 1) / block_size * block_size) input)
  unfolding block_cmac
  block_cmac-eq input =
      chain-eq input ((length input - 1) / block_size) 0 zero_block
      ∙ ap
          (λ (t : ℕ).
            last_step (absorb_blocks aes key input ((length input - 1) / block_size) 0 zero_block)
              (drop t input))
          (omega arith)

  pub valid_key : is_key_size (length key) ≡ true → new_cipher key ≡ ok tt
  unfolding new_cipher
  valid_key h = rw h

  cmac_empty : is_key_size (length key) ≡ true → cmac aes key [] ≡ ok (block_cmac [])
  unfolding cmac block_cmac block_chain last_step
  cmac_empty h = rw (valid_key h) refl

  cmac_full :
      (input : List ℕ) (m : ℕ)
      → is_key_size (length key) ≡ true
      → length input ≡ suc m * block_size
      → cmac aes key input ≡ ok (block_cmac input)
  unfolding cmac last_step absorb
  cmac_full input m h size =
      rw (valid_key h, block_cmac-eq input, size, quotient, remainder, before, whole)
        (rw
          (
            nonzero,
            predecessor,
            width,
            take_whole block_size (drop (m * block_size) input) (omega (arith, whole)),
          )
          refl)
    where
      quotient : suc m * block_size / block_size ≡ suc m
      quotient = omega arith

      remainder : suc m * block_size % block_size ≡ 0
      remainder = omega arith

      nonzero : (suc m * block_size == 0) ≡ false
      nonzero = ground arith

      predecessor : suc m - 1 ≡ m
      predecessor = omega arith

      width : suc m * block_size - m * block_size ≡ block_size
      width = omega arith

      before : (suc m * block_size - 1) / block_size ≡ m
      before = omega arith

      whole : length (drop (m * block_size) input) ≡ block_size
      whole = rw (length-drop (m * block_size) input) (omega arith)

  cmac_partial :
      (input : List ℕ) (m r : ℕ)
      → is_key_size (length key) ≡ true
      → length input ≡ m * block_size + suc r
      → suc r < block_size
      → cmac aes key input ≡ ok (block_cmac input)
  unfolding cmac last_step absorb
  cmac_partial input m r h size small =
      rw (valid_key h, block_cmac-eq input, size, quotient, remainder, before)
        (rw (nonzero, partial, not_whole) refl)
    where
      quotient : (m * block_size + suc r) / block_size ≡ m
      quotient = omega arith

      remainder : (m * block_size + suc r) % block_size ≡ suc r
      remainder = omega arith

      nonzero : (m * block_size + suc r == 0) ≡ false
      nonzero = ground arith

      partial : (suc r == 0) ≡ false
      partial = ground arith

      before : (m * block_size + suc r - 1) / block_size ≡ m
      before = omega arith

      not_whole : (length (drop (m * block_size) input) == block_size) ≡ false
      not_whole = ground (arith, length-drop (m * block_size) input)

  -- cmac is the chain, for a message of any length, the empty one included.
  pub cmac-block_cmac :
      (input : List ℕ)
      → is_key_size (length key) ≡ true
      → cmac aes key input ≡ ok (block_cmac input)
  cmac-block_cmac [] h = cmac_empty h
  cmac-block_cmac (b ∷ bs) h = elim (ℕ_discrete (length (b ∷ bs) % block_size) 0) [
    | yes full ↦ cmac_full (b ∷ bs) (length bs / block_size) h (omega arith)
    | no partial ↦
        cmac_partial (b ∷ bs) (length (b ∷ bs) / block_size) (length (b ∷ bs) % block_size - 1) h
          (omega arith) (omega arith)
  ]

  masked :
      (x block : List ℕ)
      → length x ≡ block_size
      → length block ≡ block_size
      → length (aes.encrypt key (xor_bytes x block)) ≡ block_size
  masked x block hx hb = aes.length-encrypt key _ (length-xor_block x block hx hb)

  length-k1 : length k1 ≡ block_size
  length-k1 = length-subkey _ (aes.length-encrypt key zero_block refl)

  length-last_step :
      (x last : List ℕ)
      → length x ≡ block_size
      → length last ≤ block_size
      → length (last_step x last) ≡ block_size
  unfolding last_step padded
  length-last_step x last hx hl = elim (ℕ_discrete (length last) block_size) [
    | yes full ↦
        rw (is_full full)
          (masked x (xor_bytes last k1) hx (length-xor_block last k1 full length-k1))
    | no partial ↦
        rw (is_partial partial) (
          masked x _ hx
            (length-xor_block _ k2 (padded_length partial) (length-subkey k1 length-k1)))
  ]
    where
      is_full : length last ≡ block_size → (length last == block_size) ≡ true
      is_full e = ground arith

      is_partial : length last ≢ block_size → (length last == block_size) ≡ false
      is_partial e = ground arith

      padded_length : length last ≢ block_size → length (padded aes key last) ≡ block_size
      padded_length e = omega (
        arith,
        length-append last (0x80 ∷ replicate (15 - length last) 0),
        length-replicate {A = ℕ} (15 - length last) 0,
      )

  length-block_chain :
      (n : ℕ) (x rest : List ℕ)
      → length x ≡ block_size
      → length rest ≤ suc n * block_size
      → n * block_size ≤ length rest
      → length (block_chain n x rest) ≡ block_size
  unfolding block_chain
  length-block_chain zero x rest hx hi lo = length-last_step x rest hx (omega arith)
  length-block_chain (suc n) x rest hx hi lo =
      length-block_chain n (aes.encrypt key (xor_bytes x (take block_size rest)))
        (drop block_size rest)
        (masked x (take block_size rest) hx (omega (arith, length-take block_size rest)))
        (omega (arith, length-drop block_size rest)) (omega (arith, length-drop block_size rest))

  pub length-block_cmac : (input : List ℕ) → length (block_cmac input) ≡ block_size
  unfolding block_cmac
  length-block_cmac input =
      length-block_chain ((length input - 1) / block_size) zero_block input refl (omega arith)
        (omega arith)
