-- ===== src/Fcm/Tests.antt =====
-- The theorems of the MCS client at concrete connections, with toy marshalling and cryptography.
use google_find_my_tools_go.Prelude.{
  take, length, ◌-◌, ◌+◌, ℕ, ◌≡◌, refl, arith, true, ◌==◌, if◌then◌else◌,
}
use google_find_my_tools_go.Prelude.{Result, ok, err, List, [], ◌∷◌, ◌++◌, replicate}
use google_find_my_tools_go.GoErrors.{GoError, message}
use google_find_my_tools_go.Stream.{octets, octet}
use google_find_my_tools_go.BigEndian.{uint16_of}
use google_find_my_tools_go.Bytes.{codes, bytes_eq, trim_prefix}
use google_find_my_tools_go.Fcm.Message.{Message, Codec, ReadsBack, DataMessage, tag_by_name}
use google_find_my_tools_go.Fcm.PushCrypto.{
  Primitives, PushCrypto, ecdsa, strip_padding, decrypt, take_headers, take_header,
  decode_base64_url, derive_key,
}
use google_find_my_tools_go.Fcm.PushCrypto.Sealed.{Sender, sealed, push_headers}
use google_find_my_tools_go.Fcm.Client.{frame_of, read_frame}
use google_find_my_tools_go.Fcm.Client.Wire.{read_frame-frame_of}

abbrev no_message : GoError
no_message = message "no message"

-- Marshalling that knows heartbeat acks and login responses, both of them empty.
abbrev marshal_empty : Message → Result GoError (List ℕ)
marshal_empty Message.heartbeat_ack = ok []
marshal_empty Message.login_response = ok []
marshal_empty m = err no_message

abbrev codec : Codec
codec = record {
  marshal = marshal_empty;
  unmarshal = λ tag payload.
      if tag == 1
      then ok Message.heartbeat_ack
      else if tag == 3
      then ok Message.login_response
      else err no_message;
  marshal_selective_ack = λ id. ok id;
}

codec-ReadsBack : ReadsBack codec
unfolding tag_by_name
codec-ReadsBack Message.heartbeat_ack tag payload named marshalled = ground arith
codec-ReadsBack Message.login_response tag payload named marshalled = ground arith
codec-ReadsBack m tag payload named marshalled = ground arith

read_frame-frame_of_example :
    read_frame codec true (octets (frame_of true 1 []) ++ octet 5 ∷ [])
    ≡ (ok Message.heartbeat_ack, octet 5 ∷ [])
unfolding tag_by_name
read_frame-frame_of_example =
    read_frame-frame_of codec true Message.heartbeat_ack 1 [] (octet 5 ∷ []) codec-ReadsBack refl
      refl (omega arith)

-- Cryptography that derives empty keys and opens every ciphertext as the padding length 1, a byte
-- of padding and the byte 42.
abbrev prims : Primitives
prims = record {
  base64_url = λ s. ok s;
  base64_raw_url = λ s. ok s;
  parse_pkcs8 = λ der. ok (ecdsa der);
  to_ecdh = λ k. ok k;
  public_key = λ k. k;
  p256_public = λ k. ok k;
  ecdh = λ k p. ok k;
  hkdf_extract = λ secret salt. secret;
  hkdf_expand = λ prk info n. ok (replicate n 0);
  new_gcm = λ k. ok tt;
  gcm_open = λ k nonce raw. ok (0 ∷ 1 ∷ 0 ∷ 42 ∷ []);
}

abbrev push : DataMessage
push = record {
  app_data = (codes "crypto-key", codes "dh=a") ∷ (codes "encryption", codes "salt=b") ∷ [];
  raw_data = replicate 18 9;
  persistent_id = codes "id";
}

abbrev keys : PushCrypto
keys = record { priv = 1 ∷ []; client_pub = 2 ∷ []; auth_secret = 3 ∷ []; expected_subtype = [] }

decrypts : decrypt prims keys push ≡ ok (42 ∷ [])
unfolding decrypt take_headers take_header bytes_eq trim_prefix decode_base64_url derive_key
    strip_padding uint16_of
decrypts = refl

-- A derivation that tells lengths apart, and a seal that appends 16 bytes.
abbrev sender : Sender
sender = record {
  hkdf = λ salt key info n. replicate n (length salt + length info);
  seal = λ key nonce plain. plain ++ replicate 16 0;
}

abbrev receiver_prims : Primitives
receiver_prims = record prims {
  hkdf_extract = λ key salt. salt;
  hkdf_expand = λ prk info n. ok (replicate n (length prk + length info));
  gcm_open = λ key nonce raw. ok (take (length raw - 16) raw);
}

abbrev receiver : PushCrypto
receiver = record {
  priv = 1 ∷ [];
  client_pub = replicate 65 2;
  auth_secret = 3 ∷ [];
  expected_subtype = [];
}

abbrev sealed_push : DataMessage
sealed_push = record {
  app_data = push_headers (codes "b") (replicate 65 4) [];
  raw_data =
      sealed sender (3 ∷ []) (1 ∷ []) (codes "b") (replicate 65 2) (replicate 65 4) 3 (42 ∷ []);
  persistent_id = codes "id";
}
