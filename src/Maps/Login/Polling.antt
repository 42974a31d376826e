-- ===== src/Maps/Login/Polling.antt =====
-- When AuthenticateMaps stops to poll.
use google_find_my_tools_go.Prelude.{
  ℕ, zero, suc, ◌+◌, ◌<◌, ◌≡◌, ◌⊎◌, inl, inr, refl, Bool, true, false, List, Option, none, some,
  if◌then◌else◌, arith, Result, ok, err,
}
use google_find_my_tools_go.GoErrors.{GoError}
use google_find_my_tools_go.Auth.Store.{Json, Disk, Faults}
use google_find_my_tools_go.Maps.Login.{
  Cookie, Tick, PollState, waiting, logged_in, gave_up, polled, navigated, profile_checked, has_sid,
  cookies_seen, poll_tick, poll_login, Visit, CookieJson, Login, authenticate_maps,
}

-- A tick at which the loop must end: the context is done, or the deadline is over and the cookies
-- can be read.
abbrev pub Ends : Tick → Type 0
Ends t =
    ((e : GoError) × (t.context ≡ some e))
    ⊎ ((cookies : List Cookie) × (t.cookies ≡ ok cookies) × (t.late ≡ true))

abbrev pub HasEnded : PollState → Type 0
HasEnded waiting = ⊥
HasEnded _ = Unit

if-HasEnded :
    (t u : Bool) (e : GoError) (later : PollState)
    → HasEnded later
    → HasEnded (if t then logged_in else if u then gave_up e else later)
if-HasEnded true u e later h = tt
if-HasEnded false true e later h = tt
if-HasEnded false false e later h = h

late-HasEnded : (t : Bool) (e : GoError) → HasEnded (if t then logged_in else gave_up e)
late-HasEnded true e = tt
late-HasEnded false e = tt

cookies_seen-HasEnded :
    (t : Tick) (r : Result GoError (List Cookie)) (later : PollState)
    → HasEnded later
    → HasEnded (cookies_seen t r later)
cookies_seen-HasEnded t (err e) later h = h
cookies_seen-HasEnded t (ok cookies) later h = if-HasEnded (has_sid cookies) t.late _ later h

poll_tick-HasEnded :
    (t : Tick) (o : Option GoError) (later : PollState)
    → HasEnded later
    → HasEnded (poll_tick t o later)
poll_tick-HasEnded t (some e) later h = tt
poll_tick-HasEnded t none later h = cookies_seen-HasEnded t t.cookies later h

poll_tick-late :
    (t : Tick) (o : Option GoError) (later : PollState) (cookies : List Cookie)
    → t.cookies ≡ ok cookies
    → t.late ≡ true
    → HasEnded (poll_tick t o later)
poll_tick-late t (some e) later cookies read late = tt
poll_tick-late t none later cookies read late = rw (read, late) (late-HasEnded (has_sid cookies) _)

poll_tick-Ends : (t : Tick) (later : PollState) → Ends t → HasEnded (poll_tick t t.context later)
poll_tick-Ends t later (inl (e, done)) = rw (done) tt
poll_tick-Ends t later (inr (cookies, read, late)) =
    poll_tick-late t t.context later cookies read late

plus_suc : (i k : ℕ) → i + suc k ≡ suc i + k
plus_suc i k = omega arith

zero_plus : (k : ℕ) → 0 + k ≡ k
zero_plus k = omega arith

plus_zero : (i : ℕ) → i + 0 ≡ i
plus_zero i = omega arith

poll_login-HasEnded :
    (n i k : ℕ) (ticks : ℕ → Tick) → Ends (ticks (i + k)) → k < n → HasEnded (poll_login n ticks i)
unfolding poll_login
poll_login-HasEnded zero i k ticks h lt = absurd (omega arith)
poll_login-HasEnded (suc n) i zero ticks h lt = poll_tick-Ends (ticks i) _ (rw (plus_zero i) at h)
poll_login-HasEnded (suc n) i (suc k) ticks h lt =
    poll_tick-HasEnded (ticks i) (ticks i).context _
      (poll_login-HasEnded n (suc i) k ticks (rw (plus_suc i k) at h) (omega arith))

-- The loop goes on as long as the context is not done and the cookies cannot be read.
poll_login-waiting :
    (n i : ℕ) (ticks : ℕ → Tick)
    → ((k : ℕ) → ((ticks k).context ≡ none) × ((e : GoError) × ((ticks k).cookies ≡ err e)))
    → poll_login n ticks i ≡ waiting
unfolding poll_login
poll_login-waiting zero i ticks h = refl
poll_login-waiting (suc n) i ticks h =
    rw ((h i).0, (h i).1.1) (poll_login-waiting n (suc i) ticks h)

module _ (json : Json) (cookie_json : CookieJson) (f : Faults) (d : Disk) where
  abbrev Returns : Option Login → Type 0
  Returns o = (login : Login) × (o ≡ some login)

  polled-Returns :
      (v : Visit) (p : PollState) → HasEnded p → Returns (polled json cookie_json f d v p)
  polled-Returns v waiting h = absurd h
  polled-Returns v (gave_up e) h = (_, refl)
  polled-Returns v logged_in h = (_, refl)

  navigated-Returns :
      (n : ℕ) (v : Visit) (o : Option GoError)
      → HasEnded (poll_login n v.ticks 0)
      → Returns (navigated json cookie_json f d n v o)
  navigated-Returns n v (some e) h = (_, refl)
  navigated-Returns n v none h = polled-Returns v _ h

  profile_checked-Returns :
      (n : ℕ) (v : Visit) (o : Option GoError)
      → HasEnded (poll_login n v.ticks 0)
      → Returns (profile_checked json cookie_json f d n v o)
  profile_checked-Returns n v (some e) h = (_, refl)
  profile_checked-Returns n v none h = navigated-Returns n v v.navigation h

  -- AuthenticateMaps has returned by the tick at which its context is done, or at which the
  -- deadline is over and the browser gives the cookies.
  pub authenticate_maps_finishes :
      (n k : ℕ) (v : Visit)
      → Ends (v.ticks k)
      → k < n
      → (login : Login) × (authenticate_maps json cookie_json f d n v ≡ some login)
  unfolding authenticate_maps
  authenticate_maps_finishes n k v h lt =
      profile_checked-Returns n v v.profile
        (poll_login-HasEnded n 0 k v.ticks (rw (← zero_plus k) at h) lt)

  -- As long as its context is not done and the browser gives no cookies, AuthenticateMaps goes on
  -- polling behind a free profile and a page that loads, whether its deadline is over or not.
  pub authenticate_maps_waits :
      (n : ℕ) (v : Visit)
      → v.profile ≡ none
      → v.navigation ≡ none
      → ((k : ℕ) → ((v.ticks k).context ≡ none) × ((e : GoError) × ((v.ticks k).cookies ≡ err e)))
      → authenticate_maps json cookie_json f d n v ≡ none
  unfolding authenticate_maps
  authenticate_maps_waits n v free loads h = rw (free, loads, poll_login-waiting n 0 v.ticks h) refl
