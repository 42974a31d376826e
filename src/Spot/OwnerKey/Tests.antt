-- ===== src/Spot/OwnerKey/Tests.antt =====
-- An owner key that is fetched from a server of two answers, kept, and found again.
use google_find_my_tools_go.Prelude.{
  ℕ, zero, suc, ◌+◌, ◌-◌, ◌==◌, ◌≡◌, refl, sym, ap, ◌∙◌, true, List, [], ◌∷◌, ◌++◌, length, take,
  drop, replicate, get_or, take-append, drop-append, none, some, ok, if◌then◌else◌, ok-injective,
  arith,
}
use google_find_my_tools_go.Bytes.{codes, bytes_eq}
use google_find_my_tools_go.Http.{Network, Response}
use google_find_my_tools_go.Auth.Store.{
  Secrets, Json, on_disk, Disk, Faults, no_secrets, load, update, save,
}
use google_find_my_tools_go.Auth.Store.Updated.{KeepsOwnerKey}
use google_find_my_tools_go.Crypto.KeyBackup.{Ciphers}
use google_find_my_tools_go.Spot.Client.{SpotCodec}
use google_find_my_tools_go.Spot.OwnerKey.{get_owner_key}
use google_find_my_tools_go.Spot.OwnerKey.Cached.{get_owner_key-get_owner_key}
use google_find_my_tools_go.Http
use google_find_my_tools_go.Hex
use google_find_my_tools_go.Grpc
use google_find_my_tools_go.BigEndian
use google_find_my_tools_go.Url
use google_find_my_tools_go.Text
use google_find_my_tools_go.Auth.Gpsoauth
use google_find_my_tools_go.Crypto.Aes
use google_find_my_tools_go.Crypto.KeyBackup
use google_find_my_tools_go.Spot.Client
use google_find_my_tools_go.Spot.OwnerKey

-- A lossless document: each field behind its length.
unfoldable put_all : List (List ℕ) → List ℕ
put_all [] = []
put_all (field ∷ fields) = length field ∷ (field ++ put_all fields)

abbrev get_one : List ℕ → List ℕ × List ℕ
get_one [] = ([], [])
get_one (n ∷ s) = (take n s, drop n s)

unfoldable get_all : ℕ → List ℕ → List (List ℕ)
get_all zero s = []
get_all (suc n) s = (get_one s).0 ∷ get_all n (get_one s).1

get_all-put_all : (fields : List (List ℕ)) → get_all (length fields) (put_all fields) ≡ fields
unfolding put_all get_all
get_all-put_all [] = refl
get_all-put_all (field ∷ fields) =
    rw
      (
        take-append field (put_all fields),
        drop-append field (put_all fields),
        get_all-put_all fields,
      )
      refl

abbrev fields_of : Secrets → List (List ℕ)
fields_of s =
    s.oauth_token ∷ s.aas_token ∷ s.username ∷ s.shared_key ∷ s.owner_key ∷ s.fcm_credentials
    ∷ s.maps_cookies ∷ []

abbrev secrets_of : List (List ℕ) → Secrets
secrets_of fields = record {
  oauth_token = get_or fields 0 [];
  aas_token = get_or fields 1 [];
  username = get_or fields 2 [];
  shared_key = get_or fields 3 [];
  owner_key = get_or fields 4 [];
  fcm_credentials = get_or fields 5 [];
  maps_cookies = get_or fields 6 [];
}

abbrev json : Json
json = record {
  marshal = λ s. ok (put_all (fields_of s));
  unmarshal = λ bytes. ok (secrets_of (get_all 7 bytes));
}

json-KeepsOwnerKey : KeepsOwnerKey json
json-KeepsOwnerKey s bytes written ascii =
    let same = ok-injective _ _ (sym written) in
    (
      s,
      ap (λ (b : List ℕ). json.unmarshal b) same
          ∙ ap (λ fields. ok (secrets_of fields)) (get_all-put_all (fields_of s)),
      refl,
    )

abbrev ciphers : Ciphers
ciphers = record {
  decrypt_block = λ key block. block;
  gcm_open = λ key iv ct ad. ok (take (length ct - 16) ct);
  p256_private = λ k. ok k;
  p256_public = λ k. ok k;
  p256_ecdh = λ priv pub_key. ok pub_key;
  hkdf = λ secret salt info n. replicate n 0;
  sha256 = λ text. replicate 32 0;
}

-- A token, then a frame of one byte.
abbrev two_answers : Network ℕ
two_answers = record {
  url_error = λ url. none;
  send = λ n r. (
    n + 1,
    ok (record {
      status = 200;
      body = ok (if n == 0 then codes "Auth=t" else 0 ∷ 0 ∷ 0 ∷ 0 ∷ 1 ∷ 9 ∷ []);
    }),
  );
}

abbrev codec : SpotCodec
codec = record {
  marshal_eid_info_request = ok (1 ∷ []);
  unmarshal_eid_info =
      λ raw. ok (record { encrypted_owner_key = replicate 12 0 ++ (7 ∷ 250 ∷ replicate 16 0) });
}

abbrev stored : Secrets
stored = record no_secrets {
  shared_key = codes "000102030405060708090a0b0c0d0e0f";
  fcm_credentials = codes "{}";
}

abbrev d : Disk
d = record { secrets = some (on_disk (put_all (fields_of stored))); temp = none }

abbrev working : Faults
working = record {
  read = none;
  create = none;
  write = none;
  written = 0;
  sync = none;
  close = none;
  rename = none;
  removes = true;
}

abbrev with_key : Disk
with_key = record {
  secrets = some (on_disk (put_all (fields_of (record stored { owner_key = codes "07fa" }))));
  temp = none;
}

fetched :
    get_owner_key two_answers ciphers codec (λ raw. ok (some 5)) json working working (0, d)
    ≡ ((2, with_key), ok (7 ∷ 250 ∷ []))
unfolding get_owner_key load update save put_all get_all OwnerKey.cached_key
    OwnerKey.fetch_owner_key OwnerKey.android_id_from_secrets Hex.encode_hex Hex.decode_hex
    Url.hex_value Gpsoauth.request_scope_token Client.get_eid_info_for_e2ee_devices Http.do_request
    Text.split_onto Text.cut bytes_eq Client.request Client.send Grpc.wrap Client.spot_answer
    Grpc.unwrap BigEndian.uint32_of KeyBackup.gcm_decrypt Aes.new_cipher
fetched = refl

get_owner_key-get_owner_key_example :
    get_owner_key two_answers ciphers codec (λ raw. ok (some 5)) json working working (9, with_key)
    ≡ ((9, with_key), ok (7 ∷ 250 ∷ []))
get_owner_key-get_owner_key_example =
    get_owner_key-get_owner_key two_answers ciphers codec (λ raw. ok (some 5)) json working working
      working working 0 2 9 d with_key (7 ∷ 250 ∷ []) json-KeepsOwnerKey refl
      (omega arith, (omega arith, tt)) refl fetched
