-- ===== src/Maps/SavedPlaces/Fetch.antt =====
-- Client, FetchList, FetchLists and fetchListViaHTTP of
-- pkg/googlefindmy/maps/savedplaces/savedplaces.go, over a network and encoding/json as parameters.
use google_find_my_tools_go.Prelude.{
  ℕ, zero, suc, Bool, true, false, not, List, [], ◌∷◌, ◌++◌, Option, none, some, length, drop, ◌==◌,
  if◌then◌else◌,
}
use google_find_my_tools_go.Prelude.{Result, ok, err, ◌>>=◌, ◌>>◌, fail_if}
use google_find_my_tools_go.Bytes.{codes, has_prefix, is_empty}
use google_find_my_tools_go.Decimal.{format_int64}
use google_find_my_tools_go.HttpBody.{safe}
use google_find_my_tools_go.Http.{
  Request, Response, Network, Failure, do_request, read_result, is_success,
}
use google_find_my_tools_go.Json.{Value}
use google_find_my_tools_go.Maps.SavedPlaces.Specs.{ListSpec, raw_list_id_pattern}
use google_find_my_tools_go.Maps.SavedPlaces.Entities.{Place, parse_entity_list}
pub mod Outcome

-- The type List of the source.
pub record SavedList : Type 0 where
  pub id : List ℕ
  pub name : List ℕ
  pub places : List Place

-- The cookies are in the order in which the loop over the map meets them; authuser is the pattern
-- of an int. The http.Client is the network.
pub record Client : Type 0 where
  pub cookies : List (List ℕ × List ℕ)
  pub api_url : List ℕ
  pub authuser : ℕ

abbrev pub new_client : List (List ℕ × List ℕ) → Client
new_client cookies = record {
  cookies = cookies;
  api_url = codes "https://www.google.com/maps/preview/entitylist";
  authuser = 0;
}

abbrev pub with_auth_user : Client → ℕ → Client
with_auth_user c authuser = record c { authuser = authuser }

abbrev pub with_api_url : Client → List ℕ → Client
with_api_url c u = record c { api_url = u }

-- A request that failed, "HTTP status", and "parse JSON" with the body in its safe form; then the
-- errors of FetchList, "invalid list id" and the others with the id.
pub data FetchError : Type 0 where
  failed : Failure → FetchError
  http_status : ℕ → FetchError
  parse_json : List ℕ → FetchError
  invalid_list_id : List ℕ → FetchError
  fetch_list_error : List ℕ → FetchError → FetchError

-- encoding/json: the elements of an array, `none` on an error.
abbrev pub Json : Type 0
Json = List ℕ → Option (List Value)

unfoldable pub query_url : Client → List ℕ → List ℕ
query_url c id =
    c.api_url
    ++ (codes "/getlist?authuser="
        ++ (format_int64 c.authuser
            ++ (codes "&hl=en&gl=us&pb=!1m6!1s"
                ++ (id ++ codes "!2e3!3m1!1e1!3m1!1e9!2e2!3e2!4i500"))))

unfoldable pub list_request : Client → List ℕ → Request
unfolding query_url
list_request c id = record {
  method = codes "GET";
  url = query_url c id;
  headers = (codes "User-Agent", codes "Mozilla/5.0 (X11; Linux x86_64) AppleWebKit/537.36") ∷ [];
  cookies = c.cookies;
  body = [];
}

-- What stands behind the first line break, if there is one.
unfoldable pub behind_line : List ℕ → Option (List ℕ)
behind_line [] = none
behind_line (b ∷ s) = let rest = behind_line s in if b == b'\n' then some s else rest

abbrev pub line_dropped : List ℕ → Option (List ℕ) → List ℕ
line_dropped s none = s
line_dropped s (some rest) = rest

-- The line that keeps a script from running the answer is taken off.
unfoldable pub strip_hijack : List ℕ → List ℕ
unfolding behind_line
strip_hijack s = if has_prefix s (codes ")]}'") then line_dropped s (behind_line s) else s

abbrev pub decoded_list : List ℕ → Option (List Value) → Result FetchError (List Place × List ℕ)
decoded_list s none = err (parse_json (safe s))
decoded_list s (some decoded) = ok (parse_entity_list decoded)

-- What a body or an error of reading it gives.
abbrev pub parse_list_body :
    Json → Result Failure (List ℕ) → Result FetchError (List Place × List ℕ)
parse_list_body json (err e) = err (failed e)
parse_list_body json (ok body) = let s = strip_hijack body in decoded_list s (json s)

-- What the answer of the network gives.
unfoldable pub read_list : Json → Result Failure Response → Result FetchError (List Place × List ℕ)
unfolding strip_hijack
read_list json (err e) = err (failed e)
read_list json (ok r) =
    fail_if (not (is_success r.status)) (http_status r.status)
    >> parse_list_body json (read_result r.body)

abbrev pub named_list : ListSpec → List Place × List ℕ → SavedList
named_list spec (places, api_name) = record {
  id = spec.id;
  name = if is_empty api_name then spec.name else api_name;
  places = places;
}

abbrev pub fetched :
    ListSpec → Result FetchError (List Place × List ℕ) → Result FetchError SavedList
fetched spec (err e) = err (fetch_list_error spec.id e)
fetched spec (ok answer) = ok (named_list spec answer)

-- The lists, and the errors, each with the id, that errors.Join joins: nil if there is none.
pub record Fetched : Type 0 where
  pub lists : List SavedList
  pub errors : List (List ℕ × FetchError)

abbrev pub put_fetched : ListSpec → Result FetchError SavedList → Fetched → Fetched
put_fetched spec (err e) rest = record rest { errors = (spec.id, e) ∷ rest.errors }
put_fetched spec (ok found) rest = record rest { lists = found ∷ rest.lists }

module _ {ℓ} {S : Type ℓ} (net : Network S) (json : Json) (c : Client) where
  unfoldable pub fetch_list_via_http : S → List ℕ → S × Result FetchError (List Place × List ℕ)
  unfolding list_request read_list
  fetch_list_via_http s id =
      let (s', answer) = do_request net s (list_request c id) in (s', read_list json answer)

  unfoldable pub fetch_list : S → ListSpec → S × Result FetchError SavedList
  unfolding fetch_list_via_http
  fetch_list s spec =
      let (s', answer) = fetch_list_via_http s spec.id in
      if not (raw_list_id_pattern spec.id)
      then (s, err (invalid_list_id spec.id))
      else (s', fetched spec answer)

  unfoldable pub fetch_lists : S → List ListSpec → S × Fetched
  unfolding fetch_list
  fetch_lists s [] = (s, record { lists = []; errors = [] })
  fetch_lists s (spec ∷ specs) =
      let (s', result) = fetch_list s spec in
      let (s'', rest) = fetch_lists s' specs in (s'', put_fetched spec result rest)
