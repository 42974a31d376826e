-- ===== src/Browser/Flow.antt =====
-- RunOAuthFlow and RequestSharedKey of pkg/googlefindmy/browser/oauth.go, over what chromedp and
-- the clock do in each round of their loops.
use google_find_my_tools_go.Prelude.{
  ℕ, zero, suc, Bool, true, false, not, ◌&&◌, ◌||◌, List, [], ◌∷◌, ◌++◌, Option, none, some, ◌==◌,
  if◌then◌else◌, Result, ok, err, wrap_err,
}
use google_find_my_tools_go.GoErrors.{GoError, message, wrapped}
use google_find_my_tools_go.Bytes.{codes, bytes_eq, is_empty}
use google_find_my_tools_go.Text.{contains}
use google_find_my_tools_go.Url.{encode_values}
use google_find_my_tools_go.Hex.{encode_hex}
use google_find_my_tools_go.Chrome.Profile.{System, check_profile_free}
use google_find_my_tools_go.Maps.Login.{Cookie}
use google_find_my_tools_go.Browser.SharedKey.{VaultJson, extract_shared_key}
pub mod Ends
pub mod Key

-- ErrProfileInUse with the pid, the wrapped errors, ErrTimeout, a page that was closed, the error
-- of the context, and the error of extractSharedKey.
pub data FlowError : Type 0 where
  profile_in_use : ℕ → FlowError
  flow_failed : GoError → FlowError
  timed_out page_closed no_shared_key : FlowError

-- What a round of a polling loop sees of the page, whether its deadline is over behind that, and
-- the error of the context in the select.
pub record Round {ℓ} (A : Type ℓ) : Type ℓ where
  pub seen : A
  pub late : Bool
  pub context : Option GoError

-- What a loop has come to: `none` while it goes on.
abbrev pub Ending {ℓ} : Type ℓ → Type ℓ
Ending A = Option (Result FlowError A)

module _ {ℓ κ} {A : Type ℓ} {B : Type κ} (look : A → Ending B) where
  abbrev pub selected : Option GoError → Ending B → Ending B
  selected (some e) later = some (err (flow_failed e))
  selected none later = later

  abbrev pub looked : Round A → Ending B → Ending B → Ending B
  looked r (some ending) later = some ending
  looked r none later = if r.late then some (err timed_out) else selected r.context later

  -- The first `n` rounds of a loop, from the i-th.
  unfoldable pub poll : ℕ → (ℕ → Round A) → ℕ → Ending B
  poll zero rounds i = none
  poll (suc n) rounds i = looked (rounds i) (look (rounds i).seen) (poll n rounds (suc i))

-- The value of the first cookie that is called oauth_token.
unfoldable pub find_token : List Cookie → Option (List ℕ)
find_token [] = none
find_token (c ∷ cs) =
    let rest = find_token cs in if bytes_eq c.name (codes "oauth_token") then some c.value else rest

abbrev pub token_ending : Option (List ℕ) → Ending (List ℕ)
token_ending none = none
token_ending (some token) = some (ok token)

abbrev pub look_cookies : Result GoError (List Cookie) → Ending (List ℕ)
look_cookies (err e) = some (err (flow_failed (wrapped "get cookies" e)))
look_cookies (ok cookies) = token_ending (find_token cookies)

-- An error of the location is tried again.
abbrev pub look_location : Result GoError (List ℕ) → Ending (Unit {0})
look_location (err e) = none
look_location (ok url) = if contains url (codes "myaccount.google.com") then some (ok tt) else none

-- Whether the page is closed, and the JSON text of its keys.
abbrev pub look_keys : Result GoError (Bool × List ℕ) → Ending (List ℕ)
look_keys (err e) = some (err (flow_failed (wrapped "read vault keys" e)))
look_keys (ok (closed, keys)) =
    if closed
    then some (err page_closed)
    else if not (is_empty keys) && not (bytes_eq keys (codes "null"))
    then some (ok keys)
    else none

unfoldable pub build_oauth_url : List ℕ → List ℕ
build_oauth_url email =
    codes "https://accounts.google.com/EmbeddedSetup"
    ++ (if is_empty email then [] else b'?' ∷ encode_values ((codes "Email", email) ∷ []))

-- The unlock request with a new UUID as protobuf marshals it, and base64 without padding.
pub record UnlockCodec : Type 0 where
  pub marshal_unlock : Result GoError (List ℕ)
  pub base64_raw_url : List ℕ → List ℕ

abbrev pub unlock_url : UnlockCodec → Result GoError (List ℕ) → Result FlowError (List ℕ)
unlock_url codec (err e) = err (
    flow_failed
      (wrapped "build security domain url" (wrapped "marshal encryption unlock request" e)))
unlock_url codec (ok b) =
    ok
      (codes "https://accounts.google.com/encryption/unlock/android?kdi=" ++ codec.base64_raw_url b)

unfoldable pub build_security_domain_url : UnlockCodec → Result FlowError (List ℕ)
build_security_domain_url codec = unlock_url codec codec.marshal_unlock

-- A step that only fails, and the rest behind it.
abbrev pub then_go {ℓ} : {A : Type ℓ} → (GoError → FlowError) → Option GoError → Ending A → Ending A
then_go wrap (some e) rest = some (err (wrap e))
then_go wrap none rest = rest

-- What goes on behind a loop that has found what it waits for.
abbrev pub behind {ℓ κ} : {A : Type ℓ} {B : Type κ} → Ending A → (A → Ending B) → Ending B
behind none rest = none
behind (some (err e)) rest = some (err e)
behind (some (ok a)) rest = rest a

abbrev pub profile_ending {ℓ} : {A : Type ℓ} → Result ℕ (Unit {0}) → Ending A → Ending A
profile_ending (err pid) rest = some (err (profile_in_use pid))
profile_ending (ok free) rest = rest

-- RunOAuthFlow, with what Navigate returns, `none` if it still polls behind `n` rounds.
unfoldable pub run_oauth_flow :
    System
    → List ℕ
    → (List ℕ → Option GoError)
    → ℕ
    → (ℕ → Round (Result GoError (List Cookie)))
    → List ℕ
    → Ending (List ℕ)
run_oauth_flow system dir navigate n rounds email = profile_ending (check_profile_free system dir) (
    then_go (λ e. flow_failed (wrapped "navigate" e)) (navigate (build_oauth_url email))
      (poll look_cookies n rounds 0))

-- What RequestSharedKey meets: whether the hook can be installed, what Navigate returns for a URL,
-- and the rounds of its two loops. The wrapping of the page's object behind its load only logs.
pub record KeyPage : Type 0 where
  pub hook : Option GoError
  pub navigate : List ℕ → Option GoError
  pub sign_in : ℕ → Round (Result GoError (List ℕ))
  pub keys : ℕ → Round (Result GoError (Bool × List ℕ))

abbrev pub hex_ending {ℓ} : {E : Type ℓ} → Result E (List ℕ) → Ending (List ℕ)
hex_ending (err e) = some (err no_shared_key)
hex_ending (ok key) = some (ok (encode_hex key))

abbrev pub with_url : KeyPage → VaultJson → ℕ → Result FlowError (List ℕ) → Ending (List ℕ)
with_url page json n (err e) = some (err e)
with_url page json n (ok url) =
    then_go (λ e. flow_failed (wrapped "install vault keys hook" e)) page.hook
      (then_go (λ e. flow_failed (wrapped "navigate to accounts" e))
        (page.navigate (codes "https://accounts.google.com/"))
        (behind (poll look_location n page.sign_in 0) (λ _.
          then_go (λ e. flow_failed (wrapped "navigate to security domain" e)) (page.navigate url)
            (behind (poll look_keys n page.keys 0)
              (λ keys. hex_ending (extract_shared_key json keys))))))

-- RequestSharedKey, `none` if one of its loops still polls behind `n` rounds.
unfoldable pub request_shared_key :
    System → List ℕ → UnlockCodec → KeyPage → VaultJson → ℕ → Ending (List ℕ)
request_shared_key system dir codec page json n =
    profile_ending (check_profile_free system dir)
      (with_url page json n (build_security_domain_url codec))
