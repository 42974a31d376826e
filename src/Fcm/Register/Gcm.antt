-- ===== src/Fcm/Register/Gcm.antt =====
-- retry, gcmCheckin, gcmRegister, gcmRegisterWithRetry and Checkin of
-- pkg/googlefindmy/fcm/register.go, over a network, the clock, random numbers and protobuf.
use google_find_my_tools_go.Prelude.{
  ℕ, zero, suc, Bool, true, false, not, ◌&&◌, ◌||◌, List, [], ◌∷◌, ◌++◌, Option, none, some, ◌==◌,
  if◌then◌else◌, Result, ok, err,
}
use Prim.Native.String.{String}
use google_find_my_tools_go.Bytes.{codes, bytes_eq, is_empty}
use google_find_my_tools_go.Text.{contains, cut, trim_space}
use google_find_my_tools_go.Url.{encode_values}
use google_find_my_tools_go.Decimal.{format_decimal}
use google_find_my_tools_go.GoErrors.{GoError, message, wrapped, http_status, transient}
use google_find_my_tools_go.Actions.{Action, return, ◌>>=◌, wrap_action, pure_result}
use google_find_my_tools_go.Http.{
  Request, Response, Network, Failure, bad_request, not_sent, unread, do_request, read_result,
}
use google_find_my_tools_go.Fcm.Retry.{fcm_retry, is_transient, jittered, next_delay}
use google_find_my_tools_go.Fcm.Register.Config.{
  Config, Headers, chrome_ver, gcm_server_key, default_config,
}

-- What stands outside: ctx.Err(), the random number behind Int64N, the select on ctx.Done and a
-- timer of some nanoseconds, uuid.NewString, bytes of crypto/rand, and time.Now().Unix().
pub record Outside {ℓ} (S : Type ℓ) : Type ℓ where
  pub network : Network S
  pub context_error : S → S × Option GoError
  pub random : S → S × ℕ
  pub wait : ℕ → S → S × Option GoError
  pub new_uuid : S → S × List ℕ
  pub read_random : ℕ → Action S GoError (List ℕ)
  pub unix_now : S → S × ℕ

-- AndroidCheckinRequest with the fields that vary; the others are constants of gcmCheckinOnce. The
-- id and the security token are absent unless neither is 0.
pub record CheckinRequest : Type 0 where
  pub chrome_version : List ℕ
  pub identity : Option (ℕ × ℕ)

-- The fields of AndroidCheckinResponse that are read.
pub record CheckinResponse : Type 0 where
  pub android_id : ℕ
  pub security_token : ℕ

pub record CheckinCodec : Type 0 where
  pub marshal : CheckinRequest → Result GoError (List ℕ)
  pub unmarshal : List ℕ → Result GoError CheckinResponse

pub record GcmCredentials : Type 0 where
  pub token : List ℕ
  pub app_id : List ℕ
  pub android_id : ℕ
  pub security_token : ℕ

-- The errors "… request", "… post" and "… read" of a call.
abbrev pub call_error : String → String → String → Failure → GoError
call_error request post read (bad_request e) = wrapped request e
call_error request post read (not_sent e) = wrapped post e
call_error request post read (unread e) = wrapped read e

abbrev pub read_error : String → Result Failure (List ℕ) → Result GoError (List ℕ)
read_error read (ok body) = ok body
read_error read (err (bad_request e)) = err (wrapped read e)
read_error read (err (not_sent e)) = err (wrapped read e)
read_error read (err (unread e)) = err (wrapped read e)

-- The body of a response, which is read before the status is looked at.
abbrev pub body_of_ok : ℕ → Result GoError (List ℕ) → Result GoError (List ℕ)
body_of_ok status (err e) = err e
body_of_ok status (ok body) = if not (status == 200) then err (http_status status) else ok body

abbrev pub ok_body : String → Response → Result GoError (List ℕ)
ok_body read r = body_of_ok r.status (read_error read (read_result r.body))

module _ {ℓ κ} {S : Type ℓ} {A : Type κ} (outside : Outside S) (f : Action S GoError A) where
  abbrev pub waited : S × Option GoError → Action S GoError A → S × Result GoError A
  waited (s, some e) later = (s, err e)
  waited (s, none) later = later s

  abbrev pub jittered_wait : ℕ → S × ℕ → Action S GoError A → S × Result GoError A
  jittered_wait delay (s, r) later = waited (outside.wait (jittered delay r) s) later

  abbrev pub called : Bool → ℕ → S × Result GoError A → Action S GoError A → S × Result GoError A
  called last delay (s, ok a) later = (s, ok a)
  called last delay (s, err e) later =
      if not (is_transient e) || last
      then (s, err e)
      else jittered_wait delay (outside.random s) later

  abbrev pub attempt : Bool → ℕ → S × Option GoError → Action S GoError A → S × Result GoError A
  attempt last delay (s, some e) later = (s, err e)
  attempt last delay (s, none) later = called last delay (f s) later

  -- The loop of retryWith around a function with a value, with `more` attempts behind the next one.
  -- It is used with fcmRetry, under whose delays Int64N does not panic.
  unfoldable pub retry_loop : ℕ → ℕ → ℕ → Action S GoError A
  unfolding next_delay
  retry_loop max_delay zero delay s =
      attempt true delay (outside.context_error s) (λ s'. (s', err (message "no attempt")))
  retry_loop max_delay (suc more) delay s =
      attempt false delay (outside.context_error s)
        (retry_loop max_delay more (next_delay max_delay delay))

  -- The 8 attempts of fcmRetry.
  unfoldable pub retry : Action S GoError A
  unfolding retry_loop
  retry = retry_loop fcm_retry.max_delay 7 fcm_retry.base_delay

abbrev pub checkin_identity : ℕ → ℕ → Option (ℕ × ℕ)
checkin_identity android_id security_token =
    if not (android_id == 0) && not (security_token == 0)
    then some (android_id, security_token)
    else none

abbrev pub checkin_request : Config → ℕ → ℕ → CheckinRequest
checkin_request cfg android_id security_token = record {
  chrome_version = if is_empty cfg.chrome_version then chrome_ver else cfg.chrome_version;
  identity = checkin_identity android_id security_token;
}

abbrev pub post : List ℕ → Headers → List ℕ → Request
post url headers body = record {
  method = codes "POST";
  url = url;
  headers = headers;
  cookies = [];
  body = body;
}

-- `wp:` and `#` of Sprintf around the package and a UUID.
abbrev pub gcm_app_id : Config → List ℕ → List ℕ
gcm_app_id cfg uuid = codes "wp:" ++ (cfg.bundle_id ++ b'#' ∷ uuid)

-- The form of gcmRegister, its keys in the order of Encode.
unfoldable pub register_form : List ℕ → ℕ → List ℕ
unfolding encode_values
register_form app_id android_id = encode_values (
    (codes "X-subtype", app_id)
    ∷ (codes "app", codes "org.chromium.linux")
    ∷ (codes "device", format_decimal android_id)
    ∷ (codes "sender", gcm_server_key)
    ∷ [])

unfoldable pub register_request : Config → List ℕ → ℕ → ℕ → Request
unfolding register_form
register_request cfg app_id android_id security_token =
    post cfg.register_url
      ((
        codes "Authorization",
        codes "AidLogin " ++ (format_decimal android_id ++ b':' ∷ format_decimal security_token),
      )
        ∷ (codes "Content-Type", codes "application/x-www-form-urlencoded")
        ∷ [])
      (register_form app_id android_id)

-- The token of the answer `token=…`.
abbrev pub token_of : Option (List ℕ × List ℕ) → Result GoError (List ℕ)
token_of none = err (message "gcm register unexpected response")
token_of (some (key, value)) =
    if bytes_eq key (codes "token")
    then ok value
    else err (message "gcm register unexpected response")

unfoldable pub register_token : List ℕ → Result GoError (List ℕ)
unfolding contains trim_space cut
register_token body =
    if contains body (codes "Error")
    then err (transient (message "gcm register error"))
    else token_of (cut b'=' (trim_space body))

module _ {ℓ} {S : Type ℓ} (outside : Outside S) (codec : CheckinCodec) (cfg : Config) where
  unfoldable pub gcm_checkin_once : ℕ → ℕ → Action S GoError CheckinResponse
  gcm_checkin_once android_id security_token =
      wrap_action (wrapped "marshal checkin")
        (pure_result (codec.marshal (checkin_request cfg android_id security_token)))
      >>= (λ body. wrap_action (call_error "checkin request" "checkin post" "checkin read") (λ s.
          do_request outside.network s (
            post cfg.checkin_url ((codes "Content-Type", codes "application/x-protobuf") ∷ [])
              body)))
      >>= (λ response. pure_result (ok_body "checkin read" response))
      >>= λ body. wrap_action (wrapped "checkin unmarshal") (pure_result (codec.unmarshal body))

  unfoldable pub gcm_checkin : ℕ → ℕ → Action S GoError CheckinResponse
  unfolding gcm_checkin_once retry
  gcm_checkin android_id security_token = retry outside (gcm_checkin_once android_id security_token)

  -- gcmRegister behind the new UUID.
  unfoldable pub register_app : ℕ → ℕ → List ℕ → Action S GoError GcmCredentials
  unfolding register_request register_token
  register_app android_id security_token app_id =
      wrap_action (call_error "gcm register request" "gcm register post" "gcm register read")
        (λ s. do_request outside.network s (register_request cfg app_id android_id security_token))
      >>= (λ response. pure_result (ok_body "gcm register read" response))
      >>= (λ body. pure_result (register_token body))
      >>= λ token. return (record {
        token = token;
        app_id = app_id;
        android_id = android_id;
        security_token = security_token;
      })

  abbrev with_uuid : ℕ → ℕ → S × List ℕ → S × Result GoError GcmCredentials
  with_uuid android_id security_token (s, uuid) =
      register_app android_id security_token (gcm_app_id cfg uuid) s

  unfoldable pub gcm_register : ℕ → ℕ → Action S GoError GcmCredentials
  unfolding register_app
  gcm_register android_id security_token s =
      with_uuid android_id security_token (outside.new_uuid s)

  unfoldable pub gcm_register_with_retry : ℕ → ℕ → Action S GoError GcmCredentials
  unfolding gcm_register retry
  gcm_register_with_retry android_id security_token =
      wrap_action (wrapped "gcm register failed")
        (retry outside (gcm_register android_id security_token))

-- Checkin
unfoldable pub checkin {ℓ} : {S : Type ℓ} → Outside S → CheckinCodec → Action S GoError (ℕ × ℕ)
unfolding gcm_checkin
checkin outside codec =
    wrap_action (wrapped "gcm checkin") (gcm_checkin outside codec default_config 0 0) >>= λ r.
    return (r.android_id, r.security_token)
