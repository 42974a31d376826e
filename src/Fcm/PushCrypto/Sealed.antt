-- ===== src/Fcm/PushCrypto/Sealed.antt =====
-- pushCrypto.decrypt of pkg/googlefindmy/fcm/push.go against the sender of a push, written down from
-- the drafts of Web Push encryption with the content encoding aesgcm.
use google_find_my_tools_go.Prelude.{
  ℕ, ◌+◌, ◌/◌, ◌%◌, ◌≤◌, ◌≡◌, List, [], ◌∷◌, ◌++◌, length, replicate, ok,
}
use google_find_my_tools_go.Bytes.{codes}
use google_find_my_tools_go.Fcm.PushCrypto.{Primitives, PushCrypto}

-- HKDF-SHA-256 with its salt, its input key and its info, and AES-GCM under a key and a nonce.
pub record Sender : Type 0 where
  pub hkdf : List ℕ → List ℕ → List ℕ → ℕ → List ℕ
  pub seal : List ℕ → List ℕ → List ℕ → List ℕ

-- The receiver's HKDF is the sender's, in its two steps, and its AES-GCM opens what the sender has
-- sealed, which has a tag of 16 bytes.
pub record Agrees (prims : Primitives) (sender : Sender) : Type 0 where
  pub expands :
      (salt key info : List ℕ) (n : ℕ)
      → n ≤ 32
      → prims.hkdf_expand (prims.hkdf_extract key salt) info n ≡ ok (sender.hkdf salt key info n)
  pub fills : (salt key info : List ℕ) (n : ℕ) → n ≤ 32 → length (sender.hkdf salt key info n) ≡ n
  pub takes : (key : List ℕ) → length key ≡ 16 → prims.new_gcm key ≡ ok tt
  pub opens :
      (key nonce plain : List ℕ)
      → length key ≡ 16
      → length nonce ≡ 12
      → prims.gcm_open key nonce (sender.seal key nonce plain) ≡ ok plain
  pub tagged : (key nonce plain : List ℕ) → length (sender.seal key nonce plain) ≡ length plain + 16

abbrev two_bytes : ℕ → List ℕ
two_bytes n = n / 256 ∷ n % 256 ∷ []

module _ (sender : Sender) where
  -- The curve and the two public keys, the receiver's and the sender's, each behind its length.
  abbrev context : List ℕ → List ℕ → List ℕ
  context receiver_public sender_public =
      codes "P-256"
      ++ 0
        ∷ (two_bytes (length receiver_public)
            ++ (receiver_public ++ (two_bytes (length sender_public) ++ sender_public)))

  abbrev input_key : List ℕ → List ℕ → List ℕ
  input_key auth_secret shared =
      sender.hkdf auth_secret shared (codes "Content-Encoding: auth" ++ 0 ∷ []) 32

  abbrev content_key : List ℕ → List ℕ → List ℕ → List ℕ → List ℕ
  content_key salt key receiver_public sender_public =
      sender.hkdf salt key
        (codes "Content-Encoding: aesgcm" ++ 0 ∷ context receiver_public sender_public) 16

  abbrev nonce : List ℕ → List ℕ → List ℕ → List ℕ → List ℕ
  nonce salt key receiver_public sender_public =
      sender.hkdf salt key
        (codes "Content-Encoding: nonce" ++ 0 ∷ context receiver_public sender_public) 12

  -- The body of a push: the length of the padding, zeros, and the text, sealed.
  abbrev pub sealed : List ℕ → List ℕ → List ℕ → List ℕ → List ℕ → ℕ → List ℕ → List ℕ
  sealed auth_secret shared salt receiver_public sender_public pad text =
      let key = input_key auth_secret shared in
      sender.seal (content_key salt key receiver_public sender_public)
        (nonce salt key receiver_public sender_public) (two_bytes pad ++ (replicate pad 0 ++ text))

-- The headers of a push, of its encoded salt and public key.
abbrev pub push_headers : List ℕ → List ℕ → List ℕ → List (List ℕ × List ℕ)
push_headers salt_text dh_text subtype =
    (codes "encryption", codes "salt=" ++ salt_text)
    ∷ (codes "crypto-key", codes "dh=" ++ dh_text)
    ∷ (codes "subtype", subtype)
    ∷ []

module _ (prims : Primitives) (sender : Sender) (p : PushCrypto)
    (salt_text dh_text salt dh_raw ecdh_pub shared : List ℕ) where
  abbrev key_used : List ℕ
  key_used = input_key sender p.auth_secret shared
