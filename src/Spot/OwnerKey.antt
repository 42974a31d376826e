-- ===== src/Spot/OwnerKey.antt =====
-- pkg/googlefindmy/spot/ownerkey.go: GetOwnerKey over the credential store and the network.
use google_find_my_tools_go.Prelude.{
  ℕ, zero, suc, true, List, [], ◌∷◌, Option, none, some, Result, ok, err, if◌then◌else◌,
}
use google_find_my_tools_go.GoErrors.{GoError}
use google_find_my_tools_go.Bytes.{codes, is_empty}
use google_find_my_tools_go.Hex.{encode_hex, decode_hex}
use google_find_my_tools_go.Decimal.{format_decimal}
use google_find_my_tools_go.Actions.{Action, return, fail, ◌>>=◌, wrap_action, pure_result}
use google_find_my_tools_go.Http.{Network}
use google_find_my_tools_go.Auth.Store.{Secrets, Json, Disk, Faults, Saving, left_by, load, update}
use google_find_my_tools_go.Auth.Gpsoauth.{AuthError, request_scope_token}
use google_find_my_tools_go.Crypto.KeyBackup.{Ciphers, decrypt_owner_key}
use google_find_my_tools_go.Spot.Client.{
  Client, SpotError, SpotCodec, EidInfo, get_eid_info_for_e2ee_devices,
}
pub mod Cached
mod Tests

-- The first six need no call; then the token, the request, an answer without a key, the decryption
-- and the update of the store.
pub data OwnerKeyError : Type 0 where
  load_secrets parse_credentials decrypt_failed cache_failed : GoError → OwnerKeyError
  secrets_missing shared_key_missing decode_shared_key credentials_missing android_id_missing
        empty_key :
      OwnerKeyError
  spot_token : AuthError → OwnerKeyError
  eid_info : SpotError → OwnerKeyError

-- What the credentials tell of the android ID: creds.GCM.AndroidID, `none` without creds.GCM.
abbrev pub id_text : Result GoError (Option ℕ) → Result OwnerKeyError (List ℕ)
id_text (err e) = err (parse_credentials e)
id_text (ok none) = err android_id_missing
id_text (ok (some zero)) = err android_id_missing
id_text (ok (some (suc n))) = ok (format_decimal (suc n))

unfoldable pub android_id_from_secrets :
    (List ℕ → Result GoError (Option ℕ)) → Secrets → Result OwnerKeyError (List ℕ)
android_id_from_secrets android_id secrets =
    if is_empty secrets.fcm_credentials
    then err credentials_missing
    else id_text (android_id secrets.fcm_credentials)

-- The cached owner key, if its digits can be read and it is not empty.
abbrev pub full_key : Option (List ℕ) → Option (List ℕ)
full_key none = none
full_key (some []) = none
full_key (some (b ∷ key)) = some (b ∷ key)

unfoldable pub cached_key : List ℕ → Option (List ℕ)
cached_key text = if is_empty text then none else full_key (decode_hex text)

abbrev pub decoded : Option (List ℕ) → Result OwnerKeyError (List ℕ)
decoded none = err decode_shared_key
decoded (some key) = ok key

abbrev pub shared_key_of : Secrets → Result OwnerKeyError (List ℕ)
shared_key_of secrets =
    if is_empty secrets.shared_key
    then err shared_key_missing
    else decoded (decode_hex secrets.shared_key)

abbrev pub key_in : EidInfo → Result OwnerKeyError (List ℕ)
key_in info =
    if is_empty info.encrypted_owner_key then err empty_key else ok info.encrypted_owner_key

-- The client of GetOwnerKey has the token that was got for it.
abbrev pub client_with {ℓ} : {S : Type ℓ} → List ℕ → Client S
client_with token = record { token = return token; base_url = [] }

abbrev pub set_owner_key : List ℕ → Secrets → Result GoError Secrets
set_owner_key key secrets = ok (record secrets { owner_key = encode_hex key })

module _ {ℓ} {S : Type ℓ} (net : Network S) (ciphers : Ciphers) (codec : SpotCodec)
    (android_id : List ℕ → Result GoError (Option ℕ)) (json : Json) where
  -- GetOwnerKey from the shared key to the decryption.
  unfoldable pub fetch_owner_key : Secrets → Action S OwnerKeyError (List ℕ)
  fetch_owner_key secrets = pure_result (shared_key_of secrets) >>= λ shared_key.
      pure_result (android_id_from_secrets android_id secrets) >>= λ id.
      wrap_action spot_token
        (request_scope_token net [] secrets.username secrets.aas_token id (codes "spot") true)
      >>= λ token.
          wrap_action eid_info (get_eid_info_for_e2ee_devices net (client_with token) codec)
          >>= λ info. pure_result (key_in info) >>= λ encrypted.
              wrap_action decrypt_failed
                (pure_result (decrypt_owner_key ciphers shared_key encrypted))

  -- What authStore.Update makes of the result and of the disk.
  abbrev pub cached : List ℕ → S → Disk → Saving → (S × Disk) × Result OwnerKeyError (List ℕ)
  cached key s d (ok _, disks) = ((s, left_by d disks), ok key)
  cached key s d (err e, disks) = ((s, left_by d disks), err (cache_failed e))

  abbrev pub cache_key :
      Faults → Disk → S × Result OwnerKeyError (List ℕ) → (S × Disk) × Result OwnerKeyError (List ℕ)
  cache_key g d (s, err e) = ((s, d), err e)
  cache_key g d (s, ok key) = cached key s d (update json g d (set_owner_key key))

  abbrev pub cached_or_fetched :
      Faults → S → Disk → Secrets → Option (List ℕ) → (S × Disk) × Result OwnerKeyError (List ℕ)
  cached_or_fetched g s d secrets (some key) = ((s, d), ok key)
  cached_or_fetched g s d secrets none = cache_key g d (fetch_owner_key secrets s)

  abbrev pub with_secrets :
      Faults
      → S
      → Disk
      → Result GoError (Option Secrets)
      → (S × Disk) × Result OwnerKeyError (List ℕ)
  with_secrets g s d (err e) = ((s, d), err (load_secrets e))
  with_secrets g s d (ok none) = ((s, d), err secrets_missing)
  with_secrets g s d (ok (some secrets)) =
      cached_or_fetched g s d secrets (cached_key secrets.owner_key)

  -- The faults are those of Load and of Update.
  unfoldable pub get_owner_key : Faults → Faults → Action (S × Disk) OwnerKeyError (List ℕ)
  get_owner_key f g (s, d) = with_secrets g s d (load json f d)
