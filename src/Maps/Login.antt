-- ===== src/Maps/Login.antt =====
-- AuthenticateMaps of pkg/googlefindmy/maps/maps.go, over what chromedp, the clock and the context
-- show to it, and LoadMapsCookies of maps/savedplaces/cookies.go. encoding/json is a parameter.
use google_find_my_tools_go.Prelude.{
  ℕ, zero, suc, Bool, true, false, not, ◌&&◌, ◌||◌, List, [], ◌∷◌, Option, none, some, length, leb,
  if◌then◌else◌,
}
use google_find_my_tools_go.Prelude.{Result, ok, err, wrap_err}
use google_find_my_tools_go.Bytes.{codes, bytes_eq, trim_prefix, is_empty}
use google_find_my_tools_go.Text.{has_suffix}
use google_find_my_tools_go.GoErrors.{GoError, message, wrapped}
use google_find_my_tools_go.Auth.Store.{Secrets, Json, Disk, Faults, Saving, update, load}
pub mod Cookies
pub mod Selection
pub mod Wanted
pub mod Polling
pub mod Kept
unfoldable pub use Cookies.{
  is_google_domain, contains_google_domain, is_exact, prefer_domain, is_among, is_essential_cookie,
  lookup, insert, is_wanted, choose_cookie, choose_cookies,
}
pub use Cookies.{Cookie, essential_names, Table, Chosen, chosen_none, put_cookie, keeps}

-- What a tick of the polling loop meets: the error of the context, what network.GetCookies returns,
-- and whether the deadline is over.
pub record Tick : Type 0 where
  pub context : Option GoError
  pub cookies : Result GoError (List Cookie)
  pub late : Bool

-- Whether a cookie is called SID.
unfoldable pub has_sid : List Cookie → Bool
has_sid [] = false
has_sid (c ∷ cs) = bytes_eq c.name (codes "SID") || has_sid cs

-- The state of the loop behind a number of ticks.
pub data PollState : Type 0 where
  waiting logged_in : PollState
  gave_up : GoError → PollState

abbrev pub cookies_seen : Tick → Result GoError (List Cookie) → PollState → PollState
cookies_seen t (err e) later = later
cookies_seen t (ok cookies) later =
    if has_sid cookies
    then logged_in
    else if t.late
    then gave_up (message "login timeout — SID cookie not found after 4 minutes")
    else later

abbrev pub poll_tick : Tick → Option GoError → PollState → PollState
poll_tick t (some e) later = gave_up e
poll_tick t none later = cookies_seen t t.cookies later

-- The first `n` ticks of the loop, from the i-th.
unfoldable pub poll_login : ℕ → (ℕ → Tick) → ℕ → PollState
unfolding has_sid
poll_login zero ticks i = waiting
poll_login (suc n) ticks i = poll_tick (ticks i) (ticks i).context (poll_login n ticks (suc i))

-- What AuthenticateMaps meets besides: whether the profile is free, what Navigate returns, the
-- error of the context during the last wait, and the cookies behind it.
pub record Visit : Type 0 where
  pub profile : Option GoError
  pub navigation : Option GoError
  pub ticks : ℕ → Tick
  pub settling : Option GoError
  pub cookies : Result GoError (List Cookie)

-- json.Marshal of a map of strings, and json.Unmarshal into one and into a string.
pub record CookieJson : Type 0 where
  pub marshal_map : Table → Result GoError (List ℕ)
  pub unmarshal_map : List ℕ → Result GoError Table
  pub unmarshal_text : List ℕ → Result GoError (List ℕ)

-- The number of cookies saved or an error, and what Store.Update did.
abbrev pub Login : Type 0
Login = Result GoError ℕ × List Disk

abbrev pub saved_count : ℕ → Saving → Login
saved_count n (ok done, disks) = (ok n, disks)
saved_count n (err e, disks) = (err (wrapped "save maps cookies" e), disks)

abbrev pub set_cookies : List ℕ → Secrets → Result GoError Secrets
set_cookies raw s = ok (record s { maps_cookies = raw })

abbrev pub refused : GoError → Login
refused e = (err e, [])

module _ (json : Json) (cookie_json : CookieJson) (f : Faults) (d : Disk) where
  abbrev pub save_marshalled : ℕ → Result GoError (List ℕ) → Login
  save_marshalled n (err e) = refused (wrapped "marshal maps cookies" e)
  save_marshalled n (ok raw) = saved_count n (update json f d (set_cookies raw))

  abbrev pub save_table : Table → Login
  save_table [] = refused (message "no google.com cookies found after login")
  save_table (c ∷ t) = save_marshalled (length (c ∷ t)) (cookie_json.marshal_map (c ∷ t))

  unfoldable pub save_cookies : Result GoError (List Cookie) → Login
  unfolding choose_cookies update
  save_cookies (err e) = refused (wrapped "re-fetch cookies" e)
  save_cookies (ok cookies) = save_table (choose_cookies chosen_none cookies).values

  abbrev settled : Visit → Option GoError → Login
  settled v (some e) = refused e
  settled v none = save_cookies v.cookies

  abbrev polled : Visit → PollState → Option Login
  polled v waiting = none
  polled v (gave_up e) = some (refused e)
  polled v logged_in = some (settled v v.settling)

  abbrev navigated : ℕ → Visit → Option GoError → Option Login
  navigated n v (some e) = some (refused (wrapped "navigate to maps" e))
  navigated n v none = polled v (poll_login n v.ticks 0)

  abbrev profile_checked : ℕ → Visit → Option GoError → Option Login
  profile_checked n v (some e) = some (refused e)
  profile_checked n v none = navigated n v v.navigation

  -- AuthenticateMaps, `none` if it is still polling behind `n` ticks.
  unfoldable pub authenticate_maps : ℕ → Visit → Option Login
  unfolding poll_login save_cookies
  authenticate_maps n v = profile_checked n v v.profile

-- LoadMapsCookies: the cookies as an object, or as an object in a string.
abbrev pub legacy_map : CookieJson → GoError → Result GoError (List ℕ) → Result GoError Table
legacy_map json e (err e') = err (wrapped "parse maps cookies" e)
legacy_map json e (ok s) = wrap_err (wrapped "parse maps cookies (legacy)") (json.unmarshal_map s)

abbrev pub map_or_legacy : CookieJson → List ℕ → Result GoError Table → Result GoError Table
map_or_legacy json raw (ok t) = ok t
map_or_legacy json raw (err e) = legacy_map json e (json.unmarshal_text raw)

abbrev pub not_found : GoError
not_found = message "maps cookies not found — run 'gmauthenticate' first"

abbrev pub cookies_of : CookieJson → Option Secrets → Result GoError Table
cookies_of json none = err not_found
cookies_of json (some s) =
    if is_empty s.maps_cookies
    then err not_found
    else map_or_legacy json s.maps_cookies (json.unmarshal_map s.maps_cookies)

abbrev pub cookies_loaded : CookieJson → Result GoError (Option Secrets) → Result GoError Table
cookies_loaded json (err e) = err (wrapped "load secrets" e)
cookies_loaded json (ok found) = cookies_of json found

unfoldable pub load_maps_cookies : Json → CookieJson → Faults → Disk → Result GoError Table
unfolding load
load_maps_cookies json cookie_json f d = cookies_loaded cookie_json (load json f d)
