-- ===== src/Maps/Tests.antt =====
-- The theorems of the login and of the location sharing at concrete inputs, and runs.
use google_find_my_tools_go.Prelude.{
  ℕ, ◌+◌, ◌≡◌, refl, true, false, List, [], ◌∷◌, Option, none, some, ok, err, length, ◌==◌, ltb,
  if◌then◌else◌, arith,
}
use google_find_my_tools_go.Bytes.{codes, bytes_eq, trim_prefix}
use google_find_my_tools_go.Text.{has_suffix}
use google_find_my_tools_go.GoErrors.{message}
use google_find_my_tools_go.Json.{Value, null, text, array, from_list}
use google_find_my_tools_go.Http
use google_find_my_tools_go.Http.{Network}
use google_find_my_tools_go.Auth.Store.{
  Secrets, Disk, Faults, left_by, no_secrets, load, update, save,
}
use google_find_my_tools_go.Auth.Store
use google_find_my_tools_go.Maps.Login
use google_find_my_tools_go.Maps.Login.{
  Cookie, Table, Visit, Tick, CookieJson, Login, chosen_none, choose_cookies, choose_cookie, lookup,
  poll_login, save_cookies, authenticate_maps, load_maps_cookies, is_wanted, is_exact,
  prefer_domain, has_sid, insert, contains_google_domain, is_google_domain, is_essential_cookie,
}
use google_find_my_tools_go.Maps.Login.Wanted.{choose_cookies-host_only}
use google_find_my_tools_go.Maps.Login.Selection.{value_of, best_cookie, choose_cookies-best}
use google_find_my_tools_go.Maps.Login.Polling.{authenticate_maps_waits}
use google_find_my_tools_go.Maps.Login.Kept.{load_maps_cookies-authenticate_maps}
use google_find_my_tools_go.Maps.Contacts
use google_find_my_tools_go.Maps.Contacts.Form.{IsContactList, parse_contacts-IsContactList}
use google_find_my_tools_go.Maps.Client
use google_find_my_tools_go.Maps.Client.Accounts.{EachOnce, IsValid, Outcome, call_api-Outcome}

abbrev sid_google : Cookie
sid_google = record { name = codes "SID"; value = codes "g"; domain = codes ".google.com" }

abbrev sid_german : Cookie
sid_german = record { name = codes "SID"; value = codes "d"; domain = codes ".google.de" }

abbrev other : Cookie
other = record { name = codes "X"; value = codes "x"; domain = codes "example.org" }

abbrev jar : List Cookie
jar = sid_german ∷ sid_google ∷ sid_german ∷ other ∷ []

choose_cookies-best_example :
    lookup (codes "SID") (choose_cookies chosen_none jar).values
    ≡ value_of (best_cookie (codes "SID") jar)
choose_cookies-best_example = choose_cookies-best (codes "SID") jar

abbrev host_only : Cookie
host_only = record { name = codes "X"; value = codes "x"; domain = codes "google.com" }

choose_cookies-host_only_example :
    (is_google_domain (codes "google.com") ≡ true)
    × (choose_cookies chosen_none (sid_german ∷ host_only ∷ other ∷ [])
        ≡ choose_cookies chosen_none (sid_german ∷ other ∷ []))
unfolding is_essential_cookie Login.is_among bytes_eq
choose_cookies-host_only_example =
    choose_cookies-host_only host_only (sid_german ∷ []) (other ∷ []) refl refl

chooses : (choose_cookies chosen_none jar).values ≡ (codes "SID", codes "g") ∷ []
unfolding choose_cookies choose_cookie is_wanted is_exact prefer_domain lookup insert
    contains_google_domain is_essential_cookie Login.is_among has_suffix trim_prefix bytes_eq
chooses = refl

-- A document format that keeps the cookies alone, and one for maps that keeps the first entry
-- alone.
abbrev json : Store.Json
json = record {
  marshal = λ s. ok s.maps_cookies;
  unmarshal = λ bytes. ok (record no_secrets { maps_cookies = bytes });
}

abbrev first_value : Table → List ℕ
first_value [] = []
first_value ((k, v) ∷ t) = v

abbrev cookie_json : CookieJson
cookie_json = record {
  marshal_map = λ t. ok (first_value t);
  unmarshal_map = λ bytes. ok ((codes "SID", bytes) ∷ []);
  unmarshal_text = λ bytes. err (message "no string");
}

abbrev working : Faults
working = record {
  read = none;
  create = none;
  write = none;
  written = 0;
  sync = none;
  close = none;
  rename = none;
  removes = true;
}

abbrev fresh : Disk
fresh = record { secrets = none; temp = none }

-- The first tick finds nobody signed in, the second does.
abbrev tick : ℕ → Tick
tick n = record { context = none; cookies = ok (if n == 0 then [] else jar); late = false }

abbrev visit : Visit
visit = record {
  profile = none;
  navigation = none;
  ticks = tick;
  settling = none;
  cookies = ok jar;
}

-- No cookies can be read.
abbrev closed : Visit
closed = record visit {
  ticks = λ n. record { context = none; cookies = err (message "closed"); late = ltb 3 n };
}

-- Nobody signs in, and the deadline is over behind three ticks.
abbrev idle : Visit
idle = record visit { ticks = λ n. record { context = none; cookies = ok []; late = ltb 2 n } }

authenticate_maps_waits_example : authenticate_maps json cookie_json working fresh 20 closed ≡ none
authenticate_maps_waits_example =
    authenticate_maps_waits json cookie_json working fresh 20 closed refl refl
      (λ k. (refl, (message "closed", refl)))

abbrev login : Login
login = save_cookies json cookie_json working fresh (ok jar)

logs_in : authenticate_maps json cookie_json working fresh 2 visit ≡ some login
unfolding authenticate_maps poll_login has_sid bytes_eq
logs_in = refl

counts : login.0 ≡ ok 1
unfolding save_cookies choose_cookies choose_cookie is_wanted is_exact prefer_domain lookup insert
    contains_google_domain is_essential_cookie Login.is_among has_suffix trim_prefix bytes_eq update
    load save
counts = refl

load_maps_cookies-authenticate_maps_example :
    (load_maps_cookies json cookie_json working (left_by fresh login.1)
      ≡ ok (choose_cookies chosen_none jar).values)
    × (length (choose_cookies chosen_none jar).values ≡ 1)
unfolding load choose_cookies choose_cookie is_wanted is_exact prefer_domain lookup insert
    contains_google_domain is_essential_cookie Login.is_among has_suffix trim_prefix bytes_eq
load_maps_cookies-authenticate_maps_example =
    load_maps_cookies-authenticate_maps json cookie_json working fresh working 2 visit login 1 jar
      none (codes "g") (codes "g") (record no_secrets { maps_cookies = codes "g" }) logs_in counts
      refl refl refl refl refl refl refl refl

-- An answer in which the second account is signed in.
abbrev shared : Value
shared = array (
    from_list (
      array (from_list (text (codes "17") ∷ null ∷ null ∷ text (codes "Ann") ∷ []))
      ∷ null
      ∷ null
      ∷ null
      ∷ null
      ∷ null
      ∷ null
      ∷ []))

abbrev answer : List Value
answer = array (from_list (shared ∷ null ∷ [])) ∷ null ∷ null ∷ null ∷ null ∷ null ∷ null ∷ []

abbrev one_user : Network ℕ
one_user = record {
  url_error = λ url. none;
  send = λ n request.
      (n + 1, ok (record { status = 200; body = ok (if n == 1 then codes "[" else []) }));
}

abbrev decode : List ℕ → Option (List Value)
decode [] = some []
decode (b ∷ s) = some answer

abbrev client : Client.Client
client = Client.remember_auth_user (Client.new_client []) 2

client-IsValid : IsValid client
unfolding Client.remember_auth_user
client-IsValid = omega arith

call_api-Outcome_example :
    EachOnce (Client.auth_user_order client)
    × IsValid (Client.call_api one_user decode client 0).1
    × Outcome one_user decode client 0
        (Client.auth_user_order client)
        (Client.call_api one_user decode client 0)
call_api-Outcome_example = call_api-Outcome one_user decode client 0 client-IsValid

answers :
    Client.call_api one_user decode client 0 ≡ (2, Client.remember_auth_user client 0, ok answer)
unfolding Client.call_api Client.try_all Client.try_auth_user Client.auth_user_order
    Client.remember_auth_user Client.read_answer Client.strip_prefix Http.do_request bytes_eq
answers = refl

abbrev no_float : Contacts.ParseFloat
no_float s = none

parse_contacts-IsContactList_example :
    IsContactList (length (Contacts.shared_items answer)) (Contacts.parse_contacts no_float answer)
parse_contacts-IsContactList_example = parse_contacts-IsContactList no_float answer

one_contact : length (Contacts.parse_contacts no_float answer) ≡ 1
unfolding Contacts.parse_contacts Contacts.shared_contacts Contacts.extract_contact bytes_eq
one_contact = refl
