-- ===== src/Auth/Gpsoauth.antt =====
-- pkg/googlefindmy/auth/gpsoauth.go: the exchange of tokens with Google, over a network.
use google_find_my_tools_go.Prelude.{
  ℕ, Bool, true, false, not, List, [], ◌∷◌, ◌++◌, map, Option, none, some, ◌==◌, if◌then◌else◌,
  Result, ok, err,
}
use google_find_my_tools_go.Bytes.{codes, is_empty}
use google_find_my_tools_go.Url.{Values, encode_values, parse_query, get_value}
use google_find_my_tools_go.HttpBody.{safe}
use google_find_my_tools_go.Actions.{Action, return, fail, ◌>>=◌, wrap_action, pure_result}
use google_find_my_tools_go.Http.{Request, Response, Network, Failure, do_request, read_result}
pub mod Answer
mod Tests

abbrev pub client_sig : List ℕ
client_sig = codes "38918a453d07199354f8b19af05ec6562ced5788"

abbrev pub auth_url : List ℕ
auth_url = codes "https://android.clients.google.com/auth"

-- The endpoint of a client, empty for the default. Its http.Client is the network.
unfoldable pub endpoint : List ℕ → List ℕ
endpoint override = if is_empty override then auth_url else override

-- A request that failed, the status with the body in its safe form, "parse response", and the
-- answer without the value that was asked for.
pub data AuthError : Type 0 where
  auth_failed : Failure → AuthError
  auth_status : ℕ → List ℕ → AuthError
  parse_response : AuthError
  not_found : List ℕ → AuthError

-- The forms, with their keys in the order in which Encode writes them.
unfoldable pub exchange_form : List ℕ → List ℕ → List ℕ → Values
exchange_form email oauth_token android_id =
    (codes "ACCESS_TOKEN", codes "1")
    ∷ (codes "Email", email)
    ∷ (codes "Token", oauth_token)
    ∷ (codes "accountType", codes "HOSTED_OR_GOOGLE")
    ∷ (codes "add_account", codes "1")
    ∷ (codes "androidId", android_id)
    ∷ (codes "callerSig", client_sig)
    ∷ (codes "client_sig", client_sig)
    ∷ (codes "device_country", codes "us")
    ∷ (codes "droidguard_results", codes "dummy123")
    ∷ (codes "google_play_services_version", codes "240913000")
    ∷ (codes "has_permission", codes "1")
    ∷ (codes "lang", codes "en")
    ∷ (codes "operatorCountry", codes "us")
    ∷ (codes "sdk_version", codes "17")
    ∷ (codes "service", codes "ac2dm")
    ∷ (codes "source", codes "android")
    ∷ []

abbrev pub app_of : Bool → List ℕ
app_of play_services =
    if play_services then codes "com.google.android.gms" else codes "com.google.android.apps.adm"

unfoldable pub scope_form : List ℕ → List ℕ → List ℕ → List ℕ → Bool → Values
scope_form email aas_token android_id scope play_services =
    (codes "Email", email)
    ∷ (codes "EncryptedPasswd", aas_token)
    ∷ (codes "accountType", codes "HOSTED_OR_GOOGLE")
    ∷ (codes "androidId", android_id)
    ∷ (codes "app", app_of play_services)
    ∷ (codes "client_sig", client_sig)
    ∷ (codes "device_country", codes "us")
    ∷ (codes "google_play_services_version", codes "240913000")
    ∷ (codes "has_permission", codes "1")
    ∷ (codes "lang", codes "en")
    ∷ (codes "operatorCountry", codes "us")
    ∷ (codes "sdk_version", codes "17")
    ∷ (codes "service", codes "oauth2:https://www.googleapis.com/auth/" ++ scope)
    ∷ (codes "source", codes "android")
    ∷ []

-- strings.ReplaceAll(body, "\n", "&")
unfoldable pub lines_to_parts : List ℕ → List ℕ
lines_to_parts [] = []
lines_to_parts (b ∷ s) = (if b == b'\n' then b'&' else b) ∷ lines_to_parts s

abbrev pub entries_or_error : Option Values → Result AuthError Values
entries_or_error none = err parse_response
entries_or_error (some entries) = ok entries

unfoldable pub parse_answer : List ℕ → Result AuthError Values
unfolding lines_to_parts parse_query
parse_answer body = entries_or_error (parse_query (lines_to_parts body))

abbrev pub value_or_error : List ℕ → List ℕ → Result AuthError (List ℕ)
value_or_error body value = if is_empty value then err (not_found (safe body)) else ok value

abbrev pub entries_value : List ℕ → List ℕ → Result AuthError Values → Result AuthError (List ℕ)
entries_value key body (err e) = err e
entries_value key body (ok entries) = value_or_error body (get_value key entries)

-- The value of a key in an answer.
unfoldable pub answer_value : List ℕ → List ℕ → Result AuthError (List ℕ)
unfolding parse_answer get_value
answer_value key body = entries_value key body (parse_answer body)

abbrev pub email_of : Result AuthError Values → List ℕ
email_of (err e) = []
email_of (ok entries) = get_value (codes "Email") entries

abbrev pub exchanged : List ℕ → Result AuthError (List ℕ) → Result AuthError (List ℕ × List ℕ)
exchanged body (err e) = err e
exchanged body (ok token) = ok (token, email_of (parse_answer body))

abbrev pub checked_body : ℕ → Result Failure (List ℕ) → Result AuthError (List ℕ)
checked_body status (err e) = err (auth_failed e)
checked_body status (ok body) =
    if not (status == 200) then err (auth_status status (safe body)) else ok body

module _ {ℓ} {S : Type ℓ} (net : Network S) (override : List ℕ) where
  unfoldable pub post_auth_form : Values → Action S AuthError (List ℕ)
  unfolding encode_values endpoint
  post_auth_form form =
      wrap_action auth_failed (λ s. do_request net s (record {
        method = codes "POST";
        url = endpoint override;
        headers = (codes "Content-Type", codes "application/x-www-form-urlencoded") ∷ [];
        cookies = [];
        body = encode_values form;
      }))
      >>= λ r. pure_result (checked_body r.status (read_result r.body))

  -- The aas_token and the email.
  unfoldable pub exchange_oauth_token :
      List ℕ → List ℕ → List ℕ → Action S AuthError (List ℕ × List ℕ)
  unfolding post_auth_form exchange_form answer_value
  exchange_oauth_token email oauth_token android_id =
      post_auth_form (exchange_form email oauth_token android_id) >>= λ body.
      pure_result (exchanged body (answer_value (codes "Token") body))

  unfoldable pub request_scope_token :
      List ℕ → List ℕ → List ℕ → List ℕ → Bool → Action S AuthError (List ℕ)
  unfolding post_auth_form scope_form answer_value
  request_scope_token email aas_token android_id scope play_services =
      post_auth_form (scope_form email aas_token android_id scope play_services) >>= λ body.
      pure_result (answer_value (codes "Auth") body)
