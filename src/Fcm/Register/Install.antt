-- ===== src/Fcm/Register/Install.antt =====
-- fcmInstall, doFCMInstall, fcmRegister and doFCMRegister of pkg/googlefindmy/fcm/register.go, over
-- encoding/json and base64 as parameters.
use google_find_my_tools_go.Prelude.{
  ℕ, not, ◌&&◌, List, [], ◌∷◌, ◌++◌, Option, none, some, if◌then◌else◌, Result, ok, err, bit_or,
  bit_and, fail_if, ◌>>◌,
}
use google_find_my_tools_go.Bytes.{codes, bytes_eq, is_empty}
use google_find_my_tools_go.GoErrors.{GoError, message, wrapped}
use google_find_my_tools_go.Actions.{Action, ◌>>=◌, wrap_action, pure_result}
use google_find_my_tools_go.Http.{Response, Failure, bad_request, do_request}
use google_find_my_tools_go.Fcm.Register.Config.{
  Config, Headers, gcm_server_key, add_android_headers, parse_expires_in,
}
use google_find_my_tools_go.Fcm.Register.Gcm.{
  Outside, GcmCredentials, post, ok_body, call_error, retry,
}

-- KeysCredentials of GenerateKeys.
pub record Keys : Type 0 where
  pub public_key : List ℕ
  pub private_key : List ℕ
  pub secret : List ℕ

-- expires_in and created_at are patterns of int and int64.
pub record Installation : Type 0 where
  pub token : List ℕ
  pub expires_in : ℕ
  pub refresh_token : List ℕ
  pub fid : List ℕ
  pub created_at : ℕ

-- The answer to an installation; absent fields are empty.
pub record InstallAnswer : Type 0 where
  pub auth_token : List ℕ
  pub auth_expires_in : List ℕ
  pub refresh_token : List ℕ
  pub fid : List ℕ

-- The payload of fcmInstall; authVersion and sdkVersion are constants.
pub record InstallPayload : Type 0 where
  pub app_id : List ℕ
  pub fid : List ℕ

-- webRegistration, `none` for the null of the public key.
pub record WebRegistration : Type 0 where
  pub application_pub_key : Option (List ℕ)
  pub auth : List ℕ
  pub endpoint : List ℕ
  pub p256dh : List ℕ

-- encoding/json on the values of these functions, and the base64 texts: of a byte string, and of
-- the heartbeat object, which is a constant.
pub record InstallCodec : Type 0 where
  pub marshal_payload : InstallPayload → Result GoError (List ℕ)
  pub marshal_registration : WebRegistration → Result GoError (List ℕ)
  pub unmarshal_install : List ℕ → Result GoError InstallAnswer
  pub unmarshal_token : List ℕ → Result GoError (List ℕ)
  pub base64_std : List ℕ → List ℕ
  pub heartbeat : List ℕ

-- Four bits of the first byte are fixed.
unfoldable pub fid_header : List ℕ → List ℕ
fid_header [] = []
fid_header (b ∷ bytes) = bit_or 0b01110000 (bit_and b 0b00001111) ∷ bytes

abbrev pub install_url : Config → List ℕ
install_url cfg =
    cfg.install_url ++ (codes "projects/" ++ (cfg.project_id ++ codes "/installations"))

abbrev pub registration_url : Config → List ℕ
registration_url cfg =
    cfg.fcm_reg_url ++ (codes "projects/" ++ (cfg.project_id ++ codes "/registrations"))

abbrev pub json_header : List ℕ × List ℕ
json_header = (codes "Content-Type", codes "application/json")

-- The auth token and its lifetime, or an error, from the decoded answer.
unfoldable pub check_install : InstallAnswer → Result GoError ℕ
unfolding parse_expires_in
check_install answer =
    fail_if (is_empty answer.auth_token) (message "fcm install: response missing auth token")
    >> parse_expires_in answer.auth_expires_in

abbrev pub vapid_or_null : Config → Option (List ℕ)
vapid_or_null cfg =
    if not (is_empty cfg.vapid_key) && not (bytes_eq cfg.vapid_key gcm_server_key)
    then some cfg.vapid_key
    else none

unfoldable pub web_registration : Config → GcmCredentials → Keys → WebRegistration
web_registration cfg gcm keys = record {
  application_pub_key = vapid_or_null cfg;
  auth = keys.secret;
  endpoint = codes "https://fcm.googleapis.com/fcm/send/" ++ gcm.token;
  p256dh = keys.public_key;
}

module _ {ℓ} {S : Type ℓ} (outside : Outside S) (codec : InstallCodec) (cfg : Config) where
  -- A POST to a URL that a request can be made of, once its headers are complete.
  abbrev pub android_call :
      (Failure → GoError)
      → List ℕ
      → Headers
      → List ℕ
      → S
      → Option GoError
      → Result GoError Headers
      → S × Result GoError Response
  android_call wrap url headers body s (some e) r = (s, err (wrap (bad_request e)))
  android_call wrap url headers body s none (err e) = (s, err e)
  android_call wrap url headers body s none (ok all) =
      wrap_action wrap (λ s'. do_request outside.network s' (post url all body)) s

  unfoldable pub android_post :
      (Failure → GoError) → List ℕ → Headers → List ℕ → Action S GoError Response
  unfolding add_android_headers
  android_post wrap url headers body s =
      android_call wrap url headers body s (outside.network.url_error url)
        (add_android_headers cfg headers)

  abbrev now_stamped : InstallAnswer → List ℕ → ℕ → S × ℕ → S × Result GoError Installation
  now_stamped answer fid expires_in (s, now) = (
    s,
    ok (record {
      token = answer.auth_token;
      expires_in = expires_in;
      refresh_token = answer.refresh_token;
      fid = if is_empty answer.fid then fid else answer.fid;
      created_at = now;
    }),
  )

  unfoldable pub do_fcm_install : List ℕ → List ℕ → Action S GoError Installation
  unfolding android_post check_install
  do_fcm_install fid payload =
      android_post (call_error "fcm install request" "fcm install post" "fcm install read")
        (install_url cfg)
        (json_header
          ∷ (codes "x-firebase-client", codec.heartbeat)
          ∷ (codes "x-goog-api-key", cfg.api_key)
          ∷ [])
        payload
      >>= (λ response. pure_result (ok_body "fcm install read" response))
      >>= (λ body.
          wrap_action (wrapped "fcm install unmarshal")
            (pure_result (codec.unmarshal_install body)))
      >>= λ answer. pure_result (check_install answer) >>= λ expires_in.
          (λ s. now_stamped answer fid expires_in (outside.unix_now s))

  unfoldable pub fcm_install : Action S GoError Installation
  unfolding do_fcm_install fid_header retry
  fcm_install = wrap_action (wrapped "generate fid") (outside.read_random 17) >>= λ bytes.
      let fid = codec.base64_std (fid_header bytes) in
      wrap_action (wrapped "marshal install payload")
        (pure_result (codec.marshal_payload (record { app_id = cfg.app_id; fid = fid })))
      >>= λ payload. retry outside (do_fcm_install fid payload)

  abbrev pub token_checked : List ℕ → List ℕ → Result GoError (List ℕ)
  token_checked body token =
      if is_empty token
      then err (message "fcm register: response missing registration token")
      else ok body

  -- The body of the response, which is kept as it is.
  unfoldable pub do_fcm_register : Installation → List ℕ → Action S GoError (List ℕ)
  unfolding android_post
  do_fcm_register install payload =
      android_post (call_error "fcm register request" "fcm register post" "fcm register read")
        (registration_url cfg)
        (json_header
          ∷ (codes "x-goog-api-key", cfg.api_key)
          ∷ (codes "x-goog-firebase-installations-auth", install.token)
          ∷ [])
        payload
      >>= (λ response. pure_result (ok_body "fcm register read" response))
      >>= λ body.
          wrap_action (wrapped "fcm register unmarshal") (pure_result (codec.unmarshal_token body))
          >>= λ token. pure_result (token_checked body token)

  unfoldable pub fcm_register : GcmCredentials → Installation → Keys → Action S GoError (List ℕ)
  unfolding do_fcm_register web_registration retry
  fcm_register gcm install keys =
      wrap_action (wrapped "marshal registration payload")
        (pure_result (codec.marshal_registration (web_registration cfg gcm keys)))
      >>= λ payload. retry outside (do_fcm_register install payload)
