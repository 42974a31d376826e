-- ===== src/Spot/Client.antt =====
-- pkg/googlefindmy/spot/spot.go, over a network and protobuf. The token is one that was got before.
use google_find_my_tools_go.Prelude.{
  ℕ, Bool, true, false, not, List, [], ◌∷◌, ◌++◌, Option, none, some, ◌==◌, if◌then◌else◌, Result,
  ok, err, wrap_err,
}
use google_find_my_tools_go.Bytes.{codes, is_empty}
use google_find_my_tools_go.GoErrors.{GoError}
use google_find_my_tools_go.HttpBody.{safe}
use google_find_my_tools_go.Grpc.{FrameError, wrap, unwrap}
use google_find_my_tools_go.Actions.{Action, return, fail, ◌>>=◌, wrap_action, pure_result}
use google_find_my_tools_go.Http.{Request, Response, Network, Failure, do_request, read_result}
pub mod Framed
mod Tests

abbrev pub default_url : List ℕ
default_url = codes "https://spot-pa.googleapis.com/google.internal.spot.v1.SpotService/"

abbrev pub eid_info_scope : List ℕ
eid_info_scope = codes "GetEidInfoForE2eeDevices"

-- The token source is an action; base_url is empty for the default.
pub record Client {ℓ} (S : Type ℓ) : Type ℓ where
  pub token : Action S GoError (List ℕ)
  pub base_url : List ℕ

-- "get spot token", "marshal request", a request that failed, the status with the scope and the
-- body in its safe form, "unwrap spot response" and "unmarshal eid info". The last one
-- is the panic of Wrap on a payload whose length does not fit the header.
pub data SpotError : Type 0 where
  get_spot_token marshal_request unmarshal_eid_info : GoError → SpotError
  spot_failed : Failure → SpotError
  spot_status : List ℕ → ℕ → List ℕ → SpotError
  unwrap_response : FrameError → SpotError
  wrap_panic : SpotError

abbrev pub spot_headers : List ℕ → List (List ℕ × List ℕ)
spot_headers token =
    (codes "Content-Type", codes "application/grpc")
    ∷ (codes "Te", codes "trailers")
    ∷ (codes "Authorization", codes "Bearer " ++ token)
    ∷ (codes "Grpc-Accept-Encoding", codes "gzip")
    ∷ (
      codes "User-Agent",
      codes "com.google.android.gms/244433022 grpc-java-cronet/1.69.0-SNAPSHOT",
    )
    ∷ []

-- The request with a payload in its frame.
unfoldable pub spot_request : List ℕ → List ℕ → List ℕ → List ℕ → Request
spot_request base_url token scope framed = record {
  method = codes "POST";
  url = (if is_empty base_url then default_url else base_url) ++ scope;
  headers = spot_headers token;
  cookies = [];
  body = framed;
}

abbrev pub framed_payload : List ℕ → ℕ → Result Failure (List ℕ) → Result SpotError (List ℕ)
framed_payload scope status (err e) = err (spot_failed e)
framed_payload scope status (ok framed) =
    if not (status == 200)
    then err (spot_status scope status (safe framed))
    else wrap_err unwrap_response (unwrap framed)

-- The payload of an answer.
unfoldable pub spot_answer : List ℕ → Response → Result SpotError (List ℕ)
spot_answer scope r = framed_payload scope r.status (read_result r.body)

-- EncryptedOwnerKeyAndMetadata.EncryptedOwnerKey of the response, empty if it is absent.
pub record EidInfo : Type 0 where
  pub encrypted_owner_key : List ℕ

-- protobuf: the request with the owner key version -1, and the response.
pub record SpotCodec : Type 0 where
  pub marshal_eid_info_request : Result GoError (List ℕ)
  pub unmarshal_eid_info : List ℕ → Result GoError EidInfo

module _ {ℓ} {S : Type ℓ} (net : Network S) (c : Client S) where
  abbrev pub send_framed : List ℕ → List ℕ → Option (List ℕ) → Action S SpotError (List ℕ)
  send_framed scope token none = fail wrap_panic
  send_framed scope token (some framed) =
      wrap_action spot_failed (λ s. do_request net s (spot_request c.base_url token scope framed))
      >>= λ r. pure_result (spot_answer scope r)

  unfoldable pub send : List ℕ → List ℕ → List ℕ → Action S SpotError (List ℕ)
  send scope token payload = send_framed scope token (wrap payload)

  -- The method request, on what proto.Marshal makes of the message.
  unfoldable pub request : List ℕ → Result GoError (List ℕ) → Action S SpotError (List ℕ)
  request scope message = wrap_action get_spot_token c.token >>= λ token.
      wrap_action marshal_request (pure_result message) >>= λ payload. send scope token payload

  unfoldable pub get_eid_info_for_e2ee_devices : SpotCodec → Action S SpotError EidInfo
  get_eid_info_for_e2ee_devices codec =
      request eid_info_scope codec.marshal_eid_info_request >>= λ raw.
      wrap_action unmarshal_eid_info (pure_result (codec.unmarshal_eid_info raw))
