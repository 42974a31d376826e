-- ===== src/Crypto/Eax/Seal.antt =====
-- EncryptEAX and DecryptEAX against one another.
use google_find_my_tools_go.Prelude.{ℕ, ◌+◌, ◌-◌, ◌≤◌, ◌<◌, ◌≡◌, refl, ◌∙◌, arith, ltb}
use google_find_my_tools_go.Prelude.{List, ◌∷◌, ◌++◌, length, take, drop, replicate, length-append}
use google_find_my_tools_go.Prelude.{
  take-append, drop-append, take-append-drop, length-drop, true, false,
}
use google_find_my_tools_go.Prelude.{
  ok, err, if◌then◌else◌, Bool-cases, inl, inr, ltb-eq-false, lt→ltb, dec_lt, ◌⊎◌, ◌≢◌,
}
use mathlib.Core.Path.{subst}
use google_find_my_tools_go.Bytes.{bytes_eq, bytes_eq_iff, bytes_eq_self}
use google_find_my_tools_go.Crypto.Aes.{BlockCipher, block_size, is_key_size, new_cipher}
use google_find_my_tools_go.Crypto.Aes.{xor_key_stream, invalid_key_size}
use google_find_my_tools_go.Crypto.Aes.Laws.{
  length-xor_block, length-xor_key_stream, xor_key_stream_cancel,
}
use google_find_my_tools_go.Crypto.Eax.{eax_omac, eax_tag, encrypt_eax, decrypt_eax}
use google_find_my_tools_go.Crypto.Eax.{short_ciphertext, tag_mismatch}
use google_find_my_tools_go.Crypto.Eax.Cmac.{
  block_cmac, cmac-block_cmac, length-block_cmac, valid_key,
}

module _ (aes : BlockCipher) (key : List ℕ) where
  -- OMAC of the three inputs, told apart by the last byte of a first block.
  abbrev mac : ℕ → List ℕ → List ℕ
  mac flag input = block_cmac aes key (replicate 15 0 ++ flag ∷ input)

  abbrev tag_of : List ℕ → List ℕ → List ℕ → List ℕ
  tag_of nonce header ciphertext = eax_tag aes key (mac 0 nonce) (mac 1 header) (mac 2 ciphertext)

  eax_omac-mac :
      (flag : ℕ) (input : List ℕ)
      → is_key_size (length key) ≡ true
      → eax_omac aes key flag input ≡ ok (mac flag input)
  unfolding eax_omac
  eax_omac-mac flag input h = cmac-block_cmac aes key (replicate 15 0 ++ flag ∷ input) h

  length-tag_of :
      (nonce header ciphertext : List ℕ) → length (tag_of nonce header ciphertext) ≡ block_size
  length-tag_of nonce header ciphertext =
      length-xor_block _ (mac 2 ciphertext)
        (length-xor_block (mac 0 nonce) (mac 1 header) (length-block_cmac aes key _)
          (length-block_cmac aes key _))
        (length-block_cmac aes key _)

  encrypt_eax-eq :
      (nonce header plaintext : List ℕ)
      → is_key_size (length key) ≡ true
      → let ciphertext = xor_key_stream aes key (mac 0 nonce) plaintext in
        encrypt_eax aes key nonce header plaintext
        ≡ ok (ciphertext ++ tag_of nonce header ciphertext)
  unfolding encrypt_eax
  encrypt_eax-eq nonce header plaintext h =
      rw (valid_key aes key h, eax_omac-mac 0 nonce h, eax_omac-mac 1 header h)
        (rw (eax_omac-mac 2 (xor_key_stream aes key (mac 0 nonce) plaintext) h) refl)

  decrypt_eax-eq :
      (nonce header ciphertext tag : List ℕ)
      → is_key_size (length key) ≡ true
      → length tag ≡ block_size
      → decrypt_eax aes key nonce header (ciphertext ++ tag) ≡ (
          if bytes_eq (tag_of nonce header ciphertext) tag
          then ok (xor_key_stream aes key (mac 0 nonce) ciphertext)
          else err tag_mismatch)
  unfolding decrypt_eax
  decrypt_eax-eq nonce header ciphertext tag h size =
      rw
        (
          long,
          cut,
          take-append ciphertext tag,
          drop-append ciphertext tag,
          valid_key aes key h,
          eax_omac-mac 0 nonce h,
          eax_omac-mac 1 header h,
          eax_omac-mac 2 ciphertext h,
        )
        (ground arith)
    where
      cut : length (ciphertext ++ tag) - 16 ≡ length ciphertext
      cut = omega (arith, length-append ciphertext tag)

      long : ltb (length (ciphertext ++ tag)) 16 ≡ false
      long = ltb-eq-false _ 16 (omega (arith, length-append ciphertext tag))

  -- DecryptEAX returns the plaintext that EncryptEAX sealed under the same key (of 16, 24 or 32
  -- bytes), nonce and header, and the sealed message is 16 bytes longer than the plaintext.
  pub decrypt_eax-encrypt_eax :
      (nonce header plaintext : List ℕ)
      → is_key_size (length key) ≡ true
      → (sealed : List ℕ) × (encrypt_eax aes key nonce header plaintext ≡ ok sealed)
        × (length sealed ≡ length plaintext + 16)
        × (decrypt_eax aes key nonce header sealed ≡ ok plaintext)
  decrypt_eax-encrypt_eax nonce header plaintext h = (
    ciphertext ++ tag_of nonce header ciphertext,
    encrypt_eax-eq nonce header plaintext h,
    omega (
      arith,
      length-append ciphertext (tag_of nonce header ciphertext),
      length-tag_of nonce header ciphertext,
      length-xor_key_stream aes key (mac 0 nonce) plaintext (length-block_cmac aes key _),
    ),
    decrypt_eax-eq nonce header ciphertext (tag_of nonce header ciphertext) h
          (length-tag_of nonce header ciphertext)
        ∙ rw
            (
              bytes_eq_self (tag_of nonce header ciphertext),
              xor_key_stream_cancel aes key (mac 0 nonce) plaintext (length-block_cmac aes key _),
            )
            refl,
  )
    where
      ciphertext : List ℕ
      ciphertext = xor_key_stream aes key (mac 0 nonce) plaintext

  -- On a message with a tag, of the valid key: the two answers.
  decrypt_eax_answers :
      (nonce header ciphertext tag : List ℕ)
      → is_key_size (length key) ≡ true
      → length tag ≡ block_size
      → ((plaintext : List ℕ) × (decrypt_eax aes key nonce header (ciphertext ++ tag)
            ≡ ok plaintext)
          × (encrypt_eax aes key nonce header plaintext ≡ ok (ciphertext ++ tag)))
        ⊎ (decrypt_eax aes key nonce header (ciphertext ++ tag) ≡ err tag_mismatch)
  decrypt_eax_answers nonce header ciphertext tag h size =
      elim (Bool-cases (bytes_eq (tag_of nonce header ciphertext) tag)) [
        | inl same ↦ inl (
          xor_key_stream aes key (mac 0 nonce) ciphertext,
          decrypt_eax-eq nonce header ciphertext tag h size ∙ rw same refl,
          encrypt_eax-eq nonce header (xor_key_stream aes key (mac 0 nonce) ciphertext) h
              ∙ rw
                  (
                    xor_key_stream_cancel aes key (mac 0 nonce) ciphertext
                        (length-block_cmac aes key _),
                    (bytes_eq_iff (tag_of nonce header ciphertext) tag).0 same,
                  )
                  refl,
        )
        | inr other ↦ inr (decrypt_eax-eq nonce header ciphertext tag h size ∙ rw other refl)
      ]

  -- The same on any input of at least 16 bytes.
  abbrev Answers : List ℕ → List ℕ → List ℕ → Type 0
  Answers nonce header input =
      ((plaintext : List ℕ) × (decrypt_eax aes key nonce header input ≡ ok plaintext)
        × (encrypt_eax aes key nonce header plaintext ≡ ok input))
      ⊎ (decrypt_eax aes key nonce header input ≡ err tag_mismatch)

  answers :
      (nonce header input : List ℕ)
      → 16 ≤ length input
      → is_key_size (length key) ≡ true
      → Answers nonce header input
  answers nonce header input long h =
      subst (Answers nonce header) (take-append-drop (length input - 16) input) (
        decrypt_eax_answers nonce header (take (length input - 16) input)
          (drop (length input - 16) input) h (length-drop (length input - 16) input ∙ omega arith))

  decrypt_eax_short :
      (nonce header input : List ℕ)
      → length input < 16
      → decrypt_eax aes key nonce header input ≡ err short_ciphertext
  unfolding decrypt_eax
  decrypt_eax_short nonce header input h = rw (lt→ltb (length input) 16 h) refl

  invalid_key : is_key_size (length key) ≡ false → new_cipher key ≡ err invalid_key_size
  unfolding new_cipher
  invalid_key h = rw h

  decrypt_eax_bad_key :
      (nonce header input : List ℕ)
      → 16 ≤ length input
      → is_key_size (length key) ≡ false
      → decrypt_eax aes key nonce header input ≡ err invalid_key_size
  unfolding decrypt_eax
  decrypt_eax_bad_key nonce header input long h =
      rw (ltb-eq-false (length input) 16 long, invalid_key h) refl

  -- What DecryptEAX accepts is what EncryptEAX makes of the plaintext that it returns, for the same
  -- key, nonce and header: no other ciphertext and no other tag is accepted for that plaintext.
  pub decrypt_eax_sound :
      (nonce header input plaintext : List ℕ)
      → decrypt_eax aes key nonce header input ≡ ok plaintext
      → encrypt_eax aes key nonce header plaintext ≡ ok input
  decrypt_eax_sound nonce header input plaintext e = elim (dec_lt (length input) 16) [
    | yes short ↦ cc (decrypt_eax_short nonce header input short)
    | no long ↦ elim (Bool-cases (is_key_size (length key))) [
      | inl good ↦ elim (answers nonce header input (omega arith) good) [
        | inl (p, d, s) ↦ cc
        | inr r ↦ cc
      ]
      | inr bad ↦ cc (decrypt_eax_bad_key nonce header input (omega arith) bad)
    ]
  ]

  -- Each way to fail: input shorter than a tag, whatever the key; a key that is no AES key; and,
  -- with an AES key, exactly the inputs of at least 16 bytes that EncryptEAX makes of no plaintext.
  pub decrypt_eax_errors :
      (nonce header short input : List ℕ)
      → length short < 16
      → 16 ≤ length input
      → ((plaintext : List ℕ) → encrypt_eax aes key nonce header plaintext ≢ ok input)
      → (decrypt_eax aes key nonce header short ≡ err short_ciphertext)
        × (decrypt_eax aes key nonce header input
            ≡ err (if is_key_size (length key) then tag_mismatch else invalid_key_size))
  decrypt_eax_errors nonce header short input hs long none = (
    decrypt_eax_short nonce header short hs,
    elim (Bool-cases (is_key_size (length key))) [
      | inl good ↦ elim (answers nonce header input long good) [
        | inl (p, d, s) ↦ absurd (none p s)
        | inr r ↦ rw good r
      ]
      | inr bad ↦ rw bad (decrypt_eax_bad_key nonce header input long bad)
    ],
  )
