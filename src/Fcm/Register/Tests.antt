-- ===== src/Fcm/Register/Tests.antt =====
-- The theorems of the registration at concrete inputs, and runs of its functions.
use google_find_my_tools_go.Prelude.{
  ℕ, ◌+◌, ◌≡◌, refl, sym, ap, ◌∙◌, List, [], ◌∷◌, none, Result, ok, err, ◌==◌, if◌then◌else◌,
  ok-injective,
}
use google_find_my_tools_go.Bytes.{codes, bytes_eq, has_prefix, is_empty}
use google_find_my_tools_go.Text.{
  contains, cut, trim_space, trim_left, trim_right, trim_loop, space_width, has_suffix,
}
use google_find_my_tools_go.Url.{query_escape, encode_entry, encode_values, stays}
use google_find_my_tools_go.Decimal.{format_decimal, digits_loop, atoi, atoi_digits}
use google_find_my_tools_go.GoErrors.{GoError, message, transient, eof}
use google_find_my_tools_go.Actions.{Action, return}
use google_find_my_tools_go.Http
use google_find_my_tools_go.Http.{Request, Network}
use google_find_my_tools_go.Fcm.Register.Config
use google_find_my_tools_go.Fcm.Register.Config.{
  normalize_cert_sha1, parse_expires_in, default_config,
}
use google_find_my_tools_go.Fcm.Register.Gcm
use google_find_my_tools_go.Fcm.Register.Gcm.{Outside, CheckinCodec, register_form}
use google_find_my_tools_go.Fcm.Retry.{is_transient, is_context_error, as_transient}
use google_find_my_tools_go.Fcm.Register.Install
use google_find_my_tools_go.Fcm.Register.Install.{InstallCodec}
use google_find_my_tools_go.Fcm.Register.Flow
use google_find_my_tools_go.Fcm.Register.Flow.{
  FlowCodec, Credentials, registration_token, register_at,
}
use google_find_my_tools_go.Fcm.Register.Flow.Token.{
  Nests, IsReply, HasToken, registration_token-register_at,
}

abbrev cert : List ℕ
cert = codes "38918a453d07199354f8b19af05ec6562ced5788"

abbrev spelled : List ℕ
spelled = codes "38:91:8A:45:3D:07:19:93:54:F8:B1:9A:F0:5E:C6:56:2C:ED:57:88"

normalizes : normalize_cert_sha1 spelled ≡ ok cert
unfolding normalize_cert_sha1
normalizes = refl

form :
    register_form (codes "wp:a#b") 7
    ≡ codes
        "X-subtype=wp%3Aa%23b&app=org.chromium.linux&device=7&sender=BDOU99-h67HcA6JeFXHbSNMu7e2yNNu3RzoMj8TM4W88jITfq7ZmPvIM1Iv-4_l2LxQcYwhqby2xGpWwzjfAnG4"
unfolding register_form encode_values encode_entry query_escape stays format_decimal digits_loop
form = refl

-- The state counts the requests: the second is answered with a token, the fourth with another.
abbrev reply : ℕ → List ℕ
reply n = if n == 1 then codes "token=abc\n" else if n == 3 then codes "xyz" else []

abbrev outside : Outside ℕ
outside = record {
  network = record {
    url_error = λ url. none;
    send = λ n request. (n + 1, ok (record { status = 200; body = ok (reply n) }));
  };
  context_error = λ n. (n, none);
  random = λ n. (n, 0);
  wait = λ delay n. (n, none);
  new_uuid = λ n. (n, codes "u");
  read_random = λ size. return (1 ∷ 2 ∷ []);
  unix_now = λ n. (n, 99);
}

abbrev checkins : CheckinCodec
checkins = record {
  marshal = λ request. ok [];
  unmarshal = λ bytes. ok (record { android_id = 7; security_token = 9 });
}

-- A token is the whole body.
abbrev installs : InstallCodec
installs = record {
  marshal_payload = λ payload. ok [];
  marshal_registration = λ registration. ok [];
  unmarshal_install = λ bytes. ok (record {
    auth_token = codes "a";
    auth_expires_in = codes "60s";
    refresh_token = [];
    fid = [];
  });
  unmarshal_token = λ bytes. ok bytes;
  base64_std = λ bytes. bytes;
  heartbeat = [];
}

-- The object is the registration behind one byte.
abbrev inner : List ℕ → Result GoError (List ℕ)
inner [] = err (message "empty")
inner (b ∷ token) = ok token

abbrev codec : FlowCodec
codec = record {
  base64_url = λ bytes. bytes;
  marshal_installation = λ installation. ok [];
  marshal_fcm = λ registration installation. ok (b'{' ∷ registration);
  nested_token = inner;
  flat_token = λ bytes. err (message "none");
}

codec-Nests : Nests installs codec
codec-Nests = record {
  filled = λ registration installation fcm made.
      ap is_empty (sym (ok-injective (b'{' ∷ registration) fcm made));
  nested = λ registration installation fcm token made reads.
      ap inner (sym (ok-injective (b'{' ∷ registration) fcm made)) ∙ reads;
}

abbrev creds : Credentials
creds = record {
  keys = record { public_key = []; private_key = []; secret = 1 ∷ 2 ∷ [] };
  gcm = record {
    token = codes "abc";
    app_id = codes "wp:com.google.android.apps.adm#u";
    android_id = 7;
    security_token = 9;
  };
  fcm = codes "{xyz";
  config = record {
    bundle_id = codes "com.google.android.apps.adm";
    project_id = codes "google.com:api-project-289722593072";
    vapid_key = Config.gcm_server_key;
  };
}

abbrev new_pair : ℕ → ℕ × Result GoError Flow.KeyPair
new_pair n = (n, ok (record { private_der = ok []; public_der = ok [] }))

registers : register_at outside new_pair checkins installs codec default_config 0 ≡ (4, ok creds)
unfolding register_at Flow.assemble Flow.generate_keys Gcm.gcm_checkin Gcm.gcm_checkin_once
    Gcm.retry Gcm.retry_loop Gcm.gcm_register_with_retry Gcm.gcm_register Gcm.register_app
    Gcm.register_token Install.fcm_install Install.do_fcm_install Install.android_post
    Install.check_install Install.fcm_register Install.do_fcm_register Http.do_request contains cut
    trim_space trim_left trim_right trim_loop space_width has_prefix bytes_eq
    Config.add_android_headers Config.normalize_cert_sha1 Config.parse_expires_in
    Config.trim_seconds atoi atoi_digits has_suffix
registers = refl

registration_token-register_at_example :
    (body : List ℕ) × (token : List ℕ) × (IsReply outside new_pair checkins installs codec
        default_config body
      × HasToken installs body token)
    × (registration_token codec creds.fcm ≡ token)
registration_token-register_at_example =
    registration_token-register_at outside new_pair checkins installs codec default_config 0 4 creds
      codec-Nests registers

-- A call that fails once with an error that may pass.
abbrev flaky : Action ℕ GoError (List ℕ)
flaky n = (n + 1, if n == 0 then err (transient eof) else ok (codes "done"))

flaky_retries : Gcm.retry outside flaky 0 ≡ (2, ok (codes "done"))
unfolding Gcm.retry Gcm.retry_loop is_transient is_context_error as_transient
flaky_retries = refl
