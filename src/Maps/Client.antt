-- ===== src/Maps/Client.antt =====
-- Client, GetState and callAPI of pkg/googlefindmy/maps/maps.go, over a network and encoding/json.
use google_find_my_tools_go.Prelude.{
  ℕ, zero, suc, Bool, true, false, not, ◌&&◌, ◌||◌, List, [], ◌∷◌, ◌++◌, Option, none, some, length,
  take, drop, ltb, ◌==◌, if◌then◌else◌, Result, ok, err,
}
use google_find_my_tools_go.Bytes.{codes, bytes_eq}
use google_find_my_tools_go.Decimal.{format_int64}
use google_find_my_tools_go.Url.{query_escape}
use google_find_my_tools_go.Http.{Request, Response, Network, Failure, do_request, read_result}
use google_find_my_tools_go.Json.{Value, as_text, at}
use google_find_my_tools_go.Maps.Contacts.{Contact, parse_contacts}
pub mod Accounts

-- The cookies are in the order in which the loop over the map meets them. The mutex guards the two
-- fields of the preferred account; a call is one step.
pub record Client : Type 0 where
  pub cookies : List (List ℕ × List ℕ)
  pub api_url : List ℕ
  pub preferred_auth_user : ℕ
  pub has_preferred_auth_user : Bool

abbrev pub maps_api_url : List ℕ
maps_api_url = codes "https://www.google.com/maps/rpc/locationsharing/read"

abbrev pub new_client : List (List ℕ × List ℕ) → Client
new_client cookies = record {
  cookies = cookies;
  api_url = maps_api_url;
  preferred_auth_user = 0;
  has_preferred_auth_user = false;
}

abbrev pub with_api_url : Client → List ℕ → Client
with_api_url c u = record c { api_url = u }

abbrev pub others_than : ℕ → List ℕ → List ℕ
others_than u [] = []
others_than u (a ∷ rest) =
    let later = others_than u rest in if not (a == u) then a ∷ later else later

unfoldable pub auth_user_order : Client → List ℕ
auth_user_order c =
    if not c.has_preferred_auth_user
    then 0 ∷ 1 ∷ 2 ∷ []
    else c.preferred_auth_user ∷ others_than c.preferred_auth_user (0 ∷ 1 ∷ 2 ∷ [])

unfoldable pub remember_auth_user : Client → ℕ → Client
remember_auth_user c authuser = record c {
  preferred_auth_user = authuser;
  has_preferred_auth_user = true;
}

-- The viewport descriptor.
abbrev pub pb : List ℕ
pb =
    codes "!1m7!8m6!1m3!1i14!2i8413!3i5385!2i6!3x4095"
    ++ (codes "!2m3!1e0!2sm!3i407105169!3m7!2sen!5e1105!12m4"
        ++ (codes "!1e68!2m2!1sset!2sRoadmap!4e1!5m4!1e4!8m2!1e0!"
            ++ (codes "1e1!6m9!1e12!2i2!26m1!4b1!30m1!"
                ++ codes "1f1.3953487873077393!39b1!44e1!50e0!23i4111425")))

unfoldable pub api_request : Client → ℕ → Request
unfolding query_escape
api_request c authuser = record {
  method = codes "GET";
  url =
      c.api_url
      ++ (codes "?authuser="
          ++ (format_int64 authuser ++ (codes "&hl=en&gl=us&pb=" ++ query_escape pb)));
  headers =
      (
        codes "User-Agent",
        codes
            "Mozilla/5.0 (X11; Linux x86_64) AppleWebKit/537.36 (KHTML, like Gecko) Chrome/120.0.0.0 Safari/537.36",
      )
      ∷ [];
  cookies = c.cookies;
  body = [];
}

-- What stands behind the first line break or quote, if there is one.
unfoldable pub behind_mark : List ℕ → Option (List ℕ)
behind_mark [] = none
behind_mark (b ∷ s) =
    let rest = behind_mark s in if b == b'\n' || b == b'\'' || b == b'"' then some s else rest

abbrev pub mark_dropped : List ℕ → Option (List ℕ) → List ℕ
mark_dropped s none = s
mark_dropped s (some rest) = rest

unfoldable pub strip_prefix : List ℕ → List ℕ
unfolding behind_mark
strip_prefix body =
    if ltb 4 (length body) && bytes_eq (take 4 body) (codes ")]}'")
    then mark_dropped body (behind_mark (drop 4 body))
    else body

-- The wrapped errors of tryAuthUser.
pub data TryError : Type 0 where
  failed : Failure → TryError
  parse_response : TryError

-- encoding/json: the elements of an array, `none` on an error.
abbrev pub Json : Type 0
Json = List ℕ → Option (List Value)

abbrev pub is_sentinel : Option (List ℕ) → Bool
is_sentinel none = false
is_sentinel (some s) = bytes_eq s (codes "GgA=")

-- The array, or nil if it is too short or says that nobody is signed in.
abbrev pub signed_in : Option (List Value) → Result TryError (Option (List Value))
signed_in none = err parse_response
signed_in (some parsed) =
    if ltb (length parsed) 7
    then ok none
    else if is_sentinel (as_text (at parsed 6))
    then ok none
    else ok (some parsed)

abbrev pub parse_body : Json → Result Failure (List ℕ) → Result TryError (Option (List Value))
parse_body json (err e) = err (failed e)
parse_body json (ok body) = signed_in (json (strip_prefix body))

-- The status of the response is not looked at.
unfoldable pub read_answer : Json → Result Failure Response → Result TryError (Option (List Value))
unfolding strip_prefix
read_answer json (err e) = err (failed e)
read_answer json (ok r) = parse_body json (read_result r.body)

-- ErrCookiesExpired, under what callAPI and GetState put around it.
pub data StateError : Type 0 where
  cookies_expired : StateError

module _ {ℓ} {S : Type ℓ} (net : Network S) (json : Json) where
  unfoldable pub try_auth_user : Client → S → ℕ → S × Result TryError (Option (List Value))
  unfolding api_request read_answer
  try_auth_user c s authuser =
      let (s', answer) = do_request net s (api_request c authuser) in (s', read_answer json answer)

  -- The state, the client and the result.
  abbrev pub Called : Type ℓ
  Called = S × Client × Result StateError (List Value)

  abbrev pub tried : Client → ℕ → S → Result TryError (Option (List Value)) → Called → Called
  tried c authuser s (ok (some values)) later = (s, remember_auth_user c authuser, ok values)
  tried c authuser s (ok none) later = later
  tried c authuser s (err e) later = later

  -- The loop of callAPI over the accounts.
  unfoldable pub try_all : Client → S → List ℕ → Called
  unfolding try_auth_user
  try_all c s [] = (s, c, err cookies_expired)
  try_all c s (u ∷ us) = let (s', r) = try_auth_user c s u in tried c u s' r (try_all c s' us)

  unfoldable pub call_api : Client → S → Called
  unfolding try_all auth_user_order
  call_api c s = try_all c s (auth_user_order c)

  abbrev pub contacts_of :
      Result StateError (List Value)
      → (List Value → List Contact)
      → Result StateError (List Contact)
  contacts_of (err e) parse = err e
  contacts_of (ok values) parse = ok (parse values)

  unfoldable pub get_state :
      (List Value → List Contact) → Client → S → S × Client × Result StateError (List Contact)
  unfolding call_api
  get_state parse c s = let (s', c', r) = call_api c s in (s', c', contacts_of r parse)
