-- ===== src/Fcm/Register/Flow/Token.antt =====
-- The registration token that the credentials of Register give.
use google_find_my_tools_go.Prelude.{
  ℕ, ◌≡◌, refl, false, List, [], ◌∷◌, ok, err, Result, Option, none, some, true, ◌==◌, Bool-cases,
  inl, inr, arith,
}
use google_find_my_tools_go.Bytes.{codes, is_empty}
use google_find_my_tools_go.GoErrors.{GoError, wrapped}
use google_find_my_tools_go.Actions.{Action, return, ◌>>=◌, wrap_action, pure_result}
use google_find_my_tools_go.Actions.Always.{
  OkIs, Always, Always-ok, bind-Always, next-Always, wrapped_result-Always, wrap_action-Always,
}
use google_find_my_tools_go.Http.{
  Request, Response, Failure, do_request, sent_or_failed, request_or_failed, read_result,
}
use google_find_my_tools_go.Fcm.Register.Config.{Config, Headers, add_android_headers}
use google_find_my_tools_go.Fcm.Register.Gcm.{
  call_error, ok_body, body_of_ok, read_error, post, Outside, CheckinCodec, CheckinResponse,
  GcmCredentials, gcm_checkin, gcm_register_with_retry,
}
use google_find_my_tools_go.Fcm.Register.Retried.{retry-Always}
use google_find_my_tools_go.Fcm.Register.Install.{
  Keys, Installation, InstallCodec, token_checked, do_fcm_register, fcm_register, fcm_install,
  registration_url, android_post, android_call, json_header,
}
use google_find_my_tools_go.Fcm.Register.Flow.{
  Credentials, KeyPair, FlowCodec, nested_or_flat, registration_token, assemble, register_at,
  credentials_of, generate_keys, register_installed, register_with_keys, register_gcm,
  register_device,
}

-- A response to the registration with a token that is not empty.
abbrev pub HasToken : InstallCodec → List ℕ → List ℕ → Type 0
HasToken installs body token = (installs.unmarshal_token body ≡ ok token) × (is_empty token ≡ false)

-- What encoding/json does: the object of a registration and an installation is not empty, and has
-- the token of the registration in its nested place.
pub record Nests (installs : InstallCodec) (codec : FlowCodec) : Type 0 where
  pub filled :
      (registration installation fcm : List ℕ)
      → codec.marshal_fcm registration installation ≡ ok fcm
      → is_empty fcm ≡ false
  pub nested :
      (registration installation fcm token : List ℕ)
      → codec.marshal_fcm registration installation ≡ ok fcm
      → installs.unmarshal_token registration ≡ ok token
      → codec.nested_token fcm ≡ ok token

status_ok : (status : ℕ) → (status == 200) ≡ true → status ≡ 200
status_ok status h = ground arith

module _ {ℓ} {S : Type ℓ} (outside : Outside S) (generate_key : Action S GoError KeyPair)
    (checkins : CheckinCodec) (installs : InstallCodec) (codec : FlowCodec) (cfg : Config) where
  -- A response of the network to a request for an address, and the body of one with status 200.
  abbrev pub Sent : List ℕ → Response → Type ℓ
  Sent url response =
      (before after : S) × (request : Request) × (outside.network.send before request
        ≡ (after, ok response))
      × (request.url ≡ url)

  abbrev pub IsReply : List ℕ → Type ℓ
  IsReply body =
      (response : Response) × Sent (registration_url cfg) response
      × (response.status ≡ 200)
      × (response.body ≡ ok body)

  -- A reply with some token, and credentials whose token is that of a reply.
  abbrev Answered : List ℕ → Type ℓ
  Answered body = (token : List ℕ) × (IsReply body × HasToken installs body token)

  abbrev Registered : Credentials → Type ℓ
  Registered creds =
      (body : List ℕ) × (token : List ℕ) × (IsReply body × HasToken installs body token)
      × (registration_token codec creds.fcm ≡ token)

  sent_or_failed-Sent :
      (request : Request) (s : S) (r : S × Result GoError Response)
      → outside.network.send s request ≡ r
      → OkIs (Sent request.url) (sent_or_failed outside.network r).1
  sent_or_failed-Sent request s (s', ok response) e = (s, s', request, e, refl)
  sent_or_failed-Sent request s (s', err e) h = tt

  request_or_failed-Sent :
      (request : Request) (s : S) (o : Option GoError)
      → OkIs (Sent request.url) (request_or_failed outside.network s request o).1
  request_or_failed-Sent request s (some e) = tt
  request_or_failed-Sent request s none =
      sent_or_failed-Sent request s (outside.network.send s request) refl

  do_request-Always :
      (request : Request) → Always (Sent request.url) (λ s. do_request outside.network s request)
  unfolding do_request
  do_request-Always request s =
      request_or_failed-Sent request s (outside.network.url_error request.url)

  called-Sent :
      (wrap : Failure → GoError) (url : List ℕ) (headers : Headers) (body : List ℕ) (s : S)
      (o : Option GoError) (r : Result GoError Headers)
      → OkIs (Sent url) (android_call outside installs cfg wrap url headers body s o r).1
  called-Sent wrap url headers body s (some e) r = tt
  called-Sent wrap url headers body s none (err e) = tt
  called-Sent wrap url headers body s none (ok all) =
      wrap_action-Always (Sent url) wrap (λ s'. do_request outside.network s' (post url all body))
        (do_request-Always (post url all body)) s

  android_post-Always :
      (wrap : Failure → GoError) (url : List ℕ) (headers : Headers) (body : List ℕ)
      → Always (Sent url) (android_post outside installs cfg wrap url headers body)
  unfolding android_post
  android_post-Always wrap url headers body s =
      called-Sent wrap url headers body s (outside.network.url_error url)
        (add_android_headers cfg headers)

  body-IsReply :
      (response : Response) (body : Result GoError (List ℕ))
      → Sent (registration_url cfg) response
      → response.body ≡ body
      → OkIs IsReply
          (body_of_ok response.status (read_error "fcm register read" (read_result body)))
  body-IsReply response (err e) sent same = tt
  body-IsReply response (ok body) sent same = elim (Bool-cases (response.status == 200)) [
    | inl good ↦ rw good (response, sent, status_ok response.status good, same)
    | inr bad ↦ rw bad tt
  ]

  ok_body-IsReply :
      (response : Response)
      → Sent (registration_url cfg) response
      → OkIs IsReply (ok_body "fcm register read" response)
  ok_body-IsReply response sent = body-IsReply response response.body sent refl

  token_checked-Answered :
      (body token : List ℕ)
      → IsReply body
      → installs.unmarshal_token body ≡ ok token
      → OkIs Answered (token_checked outside installs cfg body token)
  token_checked-Answered body [] reply h = tt
  token_checked-Answered body (b ∷ token) reply h = (b ∷ token, (reply, (h, refl)))

  -- The call of doFCMRegister, its reply, and what is made of that.
  abbrev posted : Installation → List ℕ → Action S GoError Response
  posted install payload =
      android_post outside installs cfg
        (call_error "fcm register request" "fcm register post" "fcm register read")
        (registration_url cfg)
        (json_header
          ∷ (codes "x-goog-api-key", cfg.api_key)
          ∷ (codes "x-goog-firebase-installations-auth", install.token)
          ∷ [])
        payload

  abbrev reply_of : Response → Action S GoError (List ℕ)
  reply_of response = pure_result (ok_body "fcm register read" response)

  abbrev token_read : List ℕ → Action S GoError (List ℕ)
  token_read body =
      wrap_action (wrapped "fcm register unmarshal") (pure_result (installs.unmarshal_token body))

  abbrev token_kept : List ℕ → List ℕ → Action S GoError (List ℕ)
  token_kept body token = pure_result (token_checked outside installs cfg body token)

  do_fcm_register-Always :
      (install : Installation) (payload : List ℕ)
      → Always Answered (do_fcm_register outside installs cfg install payload)
  unfolding do_fcm_register
  do_fcm_register-Always install payload =
      bind-Always IsReply Answered (posted install payload >>= reply_of)
        (λ body. token_read body >>= token_kept body)
        (bind-Always (Sent (registration_url cfg)) IsReply (posted install payload) reply_of
          (android_post-Always
            (call_error "fcm register request" "fcm register post" "fcm register read")
            (registration_url cfg)
            (json_header
              ∷ (codes "x-goog-api-key", cfg.api_key)
              ∷ (codes "x-goog-firebase-installations-auth", install.token)
              ∷ [])
            payload)
          (λ response sent s. ok_body-IsReply response sent))
        (λ body reply.
          bind-Always (λ token. installs.unmarshal_token body ≡ ok token) Answered (token_read body)
            (token_kept body)
            (wrapped_result-Always (wrapped "fcm register unmarshal")
              (installs.unmarshal_token body))
            (λ token h s. token_checked-Answered body token reply h))

  fcm_register-Always :
      (gcm : GcmCredentials) (install : Installation) (keys : Keys)
      → Always Answered (fcm_register outside installs cfg gcm install keys)
  unfolding fcm_register
  fcm_register-Always gcm install keys = next-Always Answered _ _ (λ payload.
      retry-Always outside (do_fcm_register outside installs cfg install payload) Answered
        (do_fcm_register-Always install payload))

  nested_or_flat-filled :
      (fcm token : List ℕ) → is_empty token ≡ false → nested_or_flat codec fcm (ok token) ≡ token
  nested_or_flat-filled fcm [] h = cc
  nested_or_flat-filled fcm (b ∷ token) h = refl

  nested-token :
      Nests installs codec
      → (body raw fcm token : List ℕ) → HasToken installs body token
      → codec.marshal_fcm body raw ≡ ok fcm
      → registration_token codec fcm ≡ token
  unfolding registration_token
  nested-token nests body raw fcm token (reads, full) made =
      rw (nests.filled body raw fcm made, nests.nested body raw fcm token made reads)
        (nested_or_flat-filled fcm token full)

  assemble-Always :
      Nests installs codec
      → (keys : Keys) (gcm : GcmCredentials) (install : Installation) (body : List ℕ)
      → Answered body
      → Always Registered
          (assemble outside generate_key checkins installs codec cfg keys gcm install body)
  unfolding assemble
  assemble-Always nests keys gcm install body (token, (reply, answered)) =
      let marshal_raw = λ (raw : List ℕ).
        wrap_action {S = S} (wrapped "marshal fcm credentials")
          (pure_result (codec.marshal_fcm body raw)) in
      let creds_of = credentials_of outside generate_key checkins installs codec cfg keys gcm in
      next-Always Registered
        (wrap_action (wrapped "marshal installation")
          (pure_result (codec.marshal_installation install)))
        (λ raw. marshal_raw raw >>= λ fcm. return (creds_of fcm))
        (λ raw.
          bind-Always (λ fcm. codec.marshal_fcm body raw ≡ ok fcm) Registered (marshal_raw raw)
            (λ fcm. return (creds_of fcm))
            (wrapped_result-Always (wrapped "marshal fcm credentials") (codec.marshal_fcm body raw))
            (λ fcm made s. (
              body,
              token,
              (reply, answered),
              nested-token nests body raw fcm token answered made,
            )))

  register_installed-Always :
      Nests installs codec
      → (gcm : GcmCredentials) (keys : Keys) (install : Installation)
      → Always Registered
          (register_installed outside generate_key checkins installs codec cfg gcm keys install)
  register_installed-Always nests gcm keys install =
      bind-Always Answered Registered
        (wrap_action (wrapped "fcm register") (fcm_register outside installs cfg gcm install keys))
        (assemble outside generate_key checkins installs codec cfg keys gcm install)
        (wrap_action-Always Answered (wrapped "fcm register")
          (fcm_register outside installs cfg gcm install keys)
          (fcm_register-Always gcm install keys))
        (assemble-Always nests keys gcm install)

  register_with_keys-Always :
      Nests installs codec
      → (gcm : GcmCredentials) (keys : Keys)
      → Always Registered
          (register_with_keys outside generate_key checkins installs codec cfg gcm keys)
  register_with_keys-Always nests gcm keys =
      next-Always Registered
        (wrap_action (wrapped "fcm install") (fcm_install outside installs cfg))
        (register_installed outside generate_key checkins installs codec cfg gcm keys)
        (register_installed-Always nests gcm keys)

  register_gcm-Always :
      Nests installs codec
      → (gcm : GcmCredentials)
      → Always Registered (register_gcm outside generate_key checkins installs codec cfg gcm)
  register_gcm-Always nests gcm =
      next-Always Registered
        (wrap_action (wrapped "generate keys")
          (generate_keys outside generate_key checkins installs codec))
        (register_with_keys outside generate_key checkins installs codec cfg gcm)
        (register_with_keys-Always nests gcm)

  register_device-Always :
      Nests installs codec
      → (device : CheckinResponse)
      → Always Registered (register_device outside generate_key checkins installs codec cfg device)
  register_device-Always nests device =
      next-Always Registered
        (wrap_action (wrapped "gcm register")
          (gcm_register_with_retry outside checkins cfg device.android_id device.security_token))
        (register_gcm outside generate_key checkins installs codec cfg) (register_gcm-Always nests)

  register_at-Always :
      Nests installs codec
      → Always Registered (register_at outside generate_key checkins installs codec cfg)
  unfolding register_at
  register_at-Always nests =
      next-Always Registered
        (wrap_action (wrapped "gcm checkin") (gcm_checkin outside checkins cfg 0 0))
        (register_device outside generate_key checkins installs codec cfg)
        (register_device-Always nests)

  -- If encoding/json keeps the token of a registration in its nested place, then behind a register
  -- that returns credentials the network has, in some state, answered a request for the address of
  -- the registrations with status 200 and a body that has a token, which is not empty, and
  -- RegistrationToken gives that token of the credentials.
  pub registration_token-register_at :
      (s s' : S) (creds : Credentials)
      → Nests installs codec
      → register_at outside generate_key checkins installs codec cfg s ≡ (s', ok creds)
      → (body : List ℕ) × (token : List ℕ) × (IsReply body × HasToken installs body token)
        × (registration_token codec creds.fcm ≡ token)
  registration_token-register_at s s' creds nests h =
      Always-ok Registered (register_at outside generate_key checkins installs codec cfg) s s' creds
        (register_at-Always nests) h
