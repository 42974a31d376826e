-- ===== src/Fcm/PushCrypto.antt =====
-- newPushCrypto and pushCrypto.decrypt of pkg/googlefindmy/fcm/push.go: the key material of the
-- push credentials and the decryption of a Web Push message (aesgcm content encoding).
use Prim.Native.String.{String}
use google_find_my_tools_go.Prelude.{ℕ, ◌+◌, ◌%◌, ◌^◌, Option, none, some, ltb, ◌||◌, ◌&&◌, Bool}
use google_find_my_tools_go.Prelude.{List, [], ◌∷◌, ◌++◌, length, take, drop, if◌then◌else◌}
use google_find_my_tools_go.Prelude.{Result, ok, err, ◌>>=◌, ◌>>◌, fail_if, wrap_err}
use google_find_my_tools_go.GoErrors.{GoError, message, wrapped}
use google_find_my_tools_go.Bytes.{codes, bytes_eq, trim_prefix, is_empty}
use google_find_my_tools_go.BigEndian.{put_uint16, uint16_of}
use google_find_my_tools_go.Fcm.Message.{DataMessage}
pub mod Padding
pub mod Sealed

-- What x509.ParsePKCS8PrivateKey returns: an ECDSA key or a key of another kind.
pub data PrivateKey : Type 0 where
  ecdsa : List ℕ → PrivateKey
  other_key : PrivateKey

-- base64, x509, ecdh, hkdf and AES-GCM. Keys are byte strings.
pub record Primitives : Type 0 where
  pub base64_url : List ℕ → Result GoError (List ℕ)
  pub base64_raw_url : List ℕ → Result GoError (List ℕ)
  pub parse_pkcs8 : List ℕ → Result GoError PrivateKey
  pub to_ecdh : List ℕ → Result GoError (List ℕ)
  pub public_key : List ℕ → List ℕ
  pub p256_public : List ℕ → Result GoError (List ℕ)
  pub ecdh : List ℕ → List ℕ → Result GoError (List ℕ)
  pub hkdf_extract : List ℕ → List ℕ → List ℕ
  pub hkdf_expand : List ℕ → List ℕ → ℕ → Result GoError (List ℕ)
  pub new_gcm : List ℕ → Result GoError (Unit {0})
  pub gcm_open : List ℕ → List ℕ → List ℕ → Result GoError (List ℕ)

pub record KeysCredentials : Type 0 where
  pub private_key : List ℕ
  pub secret : List ℕ

pub record GcmCredentials : Type 0 where
  pub app_id : List ℕ
  pub android_id : ℕ
  pub security_token : ℕ

pub record FcmCredentials : Type 0 where
  pub keys : Option KeysCredentials
  pub gcm : Option GcmCredentials

pub record PushCrypto : Type 0 where
  pub priv : List ℕ
  pub client_pub : List ℕ
  pub auth_secret : List ℕ
  pub expected_subtype : List ℕ

-- The values that decrypt takes from the app data.
pub record Headers : Type 0 where
  pub dh : List ℕ
  pub salt : List ℕ
  pub subtype : List ℕ

abbrev pub no_headers : Headers
no_headers = record { dh = []; salt = []; subtype = [] }

-- One round of the loop over the app data: a later value replaces an earlier one.
unfoldable pub take_header : Headers → List ℕ × List ℕ → Headers
take_header h (key, value) =
    if bytes_eq key (codes "crypto-key")
    then record h { dh = trim_prefix value (codes "dh=") }
    else if bytes_eq key (codes "encryption")
    then record h { salt = trim_prefix value (codes "salt=") }
    else if bytes_eq key (codes "subtype")
    then record h { subtype = value }
    else h

unfoldable pub take_headers : Headers → List (List ℕ × List ℕ) → Headers
take_headers h [] = h
take_headers h (a ∷ as') = take_headers (take_header h a) as'

-- The keys of a message: the content key and the nonce.
pub record MessageKey : Type 0 where
  pub content_key : List ℕ
  pub nonce : List ℕ

-- The key context of RFC 8291's draft: the curve's name and both public keys with their lengths.
unfoldable pub key_context : List ℕ → List ℕ → List ℕ
key_context client_pub dh_raw =
    codes "P-256"
    ++ 0 ∷ put_uint16 (length client_pub % 2 ^ 16)
    ++ client_pub
    ++ put_uint16 (length dh_raw % 2 ^ 16)
    ++ dh_raw

-- decryptedBody after gcm.Open: the padding length, the padding, the message.
unfoldable pub strip_padding : List ℕ → Result GoError (List ℕ)
strip_padding decrypted =
    let pad_len = uint16_of (take 2 decrypted) in
    if ltb (length decrypted) (2 + pad_len)
    then err (message "padding exceeds decrypted length")
    else ok (drop (2 + pad_len) decrypted)

abbrev pub raw_data_too_short : GoError
raw_data_too_short = message "raw_data too short"

module _ (prims : Primitives) where
  -- Padded base64url first, then unpadded.
  unfoldable pub decode_base64_url : List ℕ → Result GoError (List ℕ)
  decode_base64_url s = elim (prims.base64_url s) [ ok b ↦ ok b | err e ↦ prims.base64_raw_url s ]

  unfoldable pub derive_key : PushCrypto → List ℕ → List ℕ → Result GoError MessageKey
  derive_key p dh_raw salt = do
    ecdh_pub ← wrap_err (wrapped "parse server public key") (prims.p256_public dh_raw)
    shared ← wrap_err (wrapped "ecdh") (prims.ecdh p.priv ecdh_pub)
    let context = key_context p.client_pub dh_raw
    let prk1 = prims.hkdf_extract shared p.auth_secret
    derived ←
        wrap_err (wrapped "hkdf expand derived")
          (prims.hkdf_expand prk1 (codes "Content-Encoding: auth" ++ 0 ∷ []) 32)
    let prk2 = prims.hkdf_extract derived salt
    key ←
        wrap_err (wrapped "hkdf expand key")
          (prims.hkdf_expand prk2 (codes "Content-Encoding: aesgcm" ++ 0 ∷ context) 16)
    nonce ←
        wrap_err (wrapped "hkdf expand nonce")
          (prims.hkdf_expand prk2 (codes "Content-Encoding: nonce" ++ 0 ∷ context) 12)
    ok (record { content_key = key; nonce = nonce })

  unfoldable pub decrypt : PushCrypto → DataMessage → Result GoError (List ℕ)
  decrypt p msg = do
    let h = take_headers no_headers msg.app_data
    fail_if (is_empty h.dh || is_empty h.salt) (message "missing crypto-key or encryption")
    dh_raw ← wrap_err (wrapped "decode dh") (decode_base64_url h.dh)
    salt ← wrap_err (wrapped "decode salt") (decode_base64_url h.salt)
    k ← derive_key p dh_raw salt
    fail_if (ltb (length msg.raw_data) 18) raw_data_too_short
    wrap_err (wrapped "aes gcm") (prims.new_gcm k.content_key)
    decrypted ← wrap_err (wrapped "gcm open") (prims.gcm_open k.content_key k.nonce msg.raw_data)
    strip_padding decrypted

  abbrev ecdsa_only : PrivateKey → Result GoError (List ℕ)
  ecdsa_only (ecdsa k) = ok k
  ecdsa_only other_key = err (message "private key not ECDSA")

  abbrev app_id_of : Option GcmCredentials → List ℕ
  app_id_of none = []
  app_id_of (some g) = g.app_id

  abbrev need_keys : Option FcmCredentials → Result GoError (KeysCredentials × List ℕ)
  need_keys none = err (message "mcs: missing push keys")
  need_keys (some c) = elim c.keys [
    | none ↦ err (message "mcs: missing push keys")
    | some k ↦ ok (k, app_id_of c.gcm)
  ]

  unfoldable pub new_push_crypto : Option FcmCredentials → Result GoError PushCrypto
  new_push_crypto creds = do
    (keys, app_id) ← need_keys creds
    der ← wrap_err (wrapped "decode private key") (decode_base64_url keys.private_key)
    parsed ← wrap_err (wrapped "parse private key") (prims.parse_pkcs8 der)
    key ← ecdsa_only parsed
    priv ← wrap_err (wrapped "ecdh conversion") (prims.to_ecdh key)
    secret ← wrap_err (wrapped "decode auth secret") (decode_base64_url keys.secret)
    ok (record {
      priv = priv;
      client_pub = prims.public_key priv;
      auth_secret = secret;
      expected_subtype = app_id;
    })
