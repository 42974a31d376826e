-- ===== src/Nova.antt =====
-- pkg/googlefindmy/nova/nova.go, over a network and protobuf.
use google_find_my_tools_go.Prelude.{
  ℕ, Bool, true, false, not, List, [], ◌∷◌, ◌++◌, Option, none, some, ◌==◌, if◌then◌else◌, Result,
  ok, err,
}
use google_find_my_tools_go.Bytes.{codes, is_empty}
use google_find_my_tools_go.GoErrors.{GoError}
use google_find_my_tools_go.HttpBody.{safe}
use google_find_my_tools_go.Actions.{Action, ◌>>=◌, wrap_action, pure_result}
use google_find_my_tools_go.Http.{Request, Response, Network, Failure, do_request, read_result}
pub mod Pairs

-- The token source is an action, and a new UUID another; base_url is empty for the default.
pub record NovaClient {ℓ} (S : Type ℓ) : Type ℓ where
  pub token : Action S GoError (List ℕ)
  pub base_url : List ℕ
  pub fmd_client_uuid : List ℕ

-- The fields of the messages that vary. A device list request has a UUID.
pub record LocateRequest : Type 0 where
  pub canonic_id : List ℕ
  pub request_uuid : List ℕ
  pub fmd_client_uuid : List ℕ
  pub gcm_registration_id : List ℕ

-- A device: whether its type is IDENTIFIER_ANDROID, the ids of its phone, those outside of it, and
-- the name that its owner gave it. What is absent is empty.
pub record DeviceMetadata : Type 0 where
  pub is_android : Bool
  pub phone_ids : List (List ℕ)
  pub device_ids : List (List ℕ)
  pub user_defined_name : List ℕ

-- protobuf; U is the type of a DeviceUpdate.
pub record NovaCodec {ℓ} (U : Type ℓ) : Type ℓ where
  pub marshal_list : List ℕ → Result GoError (List ℕ)
  pub unmarshal_list : List ℕ → Result GoError (List DeviceMetadata)
  pub marshal_locate : LocateRequest → Result GoError (List ℕ)
  pub unmarshal_update : List ℕ → Result GoError U

-- The wrapped errors: of the token, of a request, of its status with the scope and the body in its
-- safe form, and of protobuf.
pub data NovaError : Type 0 where
  get_nova_token marshal_request unmarshal_response : GoError → NovaError
  nova_failed : Failure → NovaError
  nova_status : List ℕ → ℕ → List ℕ → NovaError

abbrev pub nova_url : List ℕ
nova_url = codes "https://android.googleapis.com/nova/"

abbrev pub list_scope : List ℕ
list_scope = codes "nbe_list_devices"

abbrev pub action_scope : List ℕ
action_scope = codes "nbe_execute_action"

unfoldable pub nova_request : List ℕ → List ℕ → List ℕ → List ℕ → Request
nova_request base_url scope token payload = record {
  method = codes "POST";
  url = (if is_empty base_url then nova_url else base_url) ++ scope;
  headers =
      (codes "Content-Type", codes "application/x-www-form-urlencoded; charset=UTF-8")
      ∷ (codes "Authorization", codes "Bearer " ++ token)
      ∷ (codes "Accept-Language", codes "en-US")
      ∷ (codes "User-Agent", codes "fmd/20006320; gzip")
      ∷ [];
  cookies = [];
  body = payload;
}

-- The body of an answer, which is read before the status is looked at.
abbrev pub nova_body : List ℕ → ℕ → Result Failure (List ℕ) → Result NovaError (List ℕ)
nova_body scope status (err e) = err (nova_failed e)
nova_body scope status (ok body) =
    if not (status == 200) then err (nova_status scope status (safe body)) else ok body

module _ {ℓ κ} {S : Type ℓ} {U : Type κ} (net : Network S) (c : NovaClient S)
    (codec : NovaCodec U) where
  -- The method request.
  unfoldable pub nova_call : List ℕ → List ℕ → Action S NovaError (List ℕ)
  nova_call scope payload = wrap_action get_nova_token c.token >>= λ token.
      wrap_action nova_failed (λ s. do_request net s (nova_request c.base_url scope token payload))
      >>= λ r. pure_result (nova_body scope r.status (read_result r.body))

  -- ListDevices, with its new UUID.
  unfoldable pub list_devices : List ℕ → Action S NovaError (List DeviceMetadata)
  list_devices uuid = wrap_action marshal_request (pure_result (codec.marshal_list uuid)) >>= λ b.
      nova_call list_scope b >>= λ resp.
      wrap_action unmarshal_response (pure_result (codec.unmarshal_list resp))

  unfoldable pub locate : List ℕ → List ℕ → List ℕ → Action S NovaError U
  locate canonic_id gcm_registration_id request_uuid =
      wrap_action marshal_request (
        pure_result (
          codec.marshal_locate (record {
            canonic_id = canonic_id;
            request_uuid = request_uuid;
            fmd_client_uuid = c.fmd_client_uuid;
            gcm_registration_id = gcm_registration_id;
          })))
      >>= λ b. nova_call action_scope b >>= λ resp.
          wrap_action unmarshal_response (pure_result (codec.unmarshal_update resp))

pub record CanonicId : Type 0 where
  pub name : List ℕ
  pub id : List ℕ

-- The inner loop, behind the pairs that are there.
unfoldable pub append_ids : List ℕ → List CanonicId → List (List ℕ) → List CanonicId
append_ids name out [] = out
append_ids name out (id ∷ ids) = append_ids name (out ++ (record { name = name; id = id }) ∷ []) ids

abbrev pub ids_of : DeviceMetadata → List (List ℕ)
ids_of device = if device.is_android then device.phone_ids else device.device_ids

unfoldable pub canonic_loop : List CanonicId → List DeviceMetadata → List CanonicId
canonic_loop out [] = out
canonic_loop out (device ∷ devices) =
    canonic_loop (append_ids device.user_defined_name out (ids_of device)) devices

-- CanonicIDs
unfoldable pub canonic_ids : List DeviceMetadata → List CanonicId
canonic_ids devices = canonic_loop [] devices
