-- ===== src/Maps/Login/Kept.antt =====
-- The cookies of a login are those that the saved places find in the store.
use google_find_my_tools_go.Prelude.{
  ℕ, ◌≡◌, refl, sym, ap, ◌∙◌, false, List, [], ◌∷◌, Option, none, some, ok, err, length,
  ok-injective,
}
use google_find_my_tools_go.Bytes.{is_empty}
use google_find_my_tools_go.GoErrors.{GoError}
use google_find_my_tools_go.Auth.Store.{
  Secrets, Json, Disk, Faults, Saving, left_by, load, or_empty, update,
}
use google_find_my_tools_go.Auth.Store.Atomic.{load-update}
use google_find_my_tools_go.Maps.Login.{
  Cookie, Table, chosen_none, choose_cookies, CookieJson, Login, saved_count, set_cookies,
  save_marshalled, save_table, save_cookies, settled, polled, navigated, profile_checked, Visit,
  PollState, waiting, logged_in, gave_up, authenticate_maps, cookies_loaded, load_maps_cookies,
}

saved_count-ok :
    (n count : ℕ) (r : Saving)
    → (saved_count n r).0 ≡ ok count
    → (n ≡ count) × (r.0 ≡ ok tt) × ((saved_count n r).1 ≡ r.1)
saved_count-ok n count (ok tt, disks) h = (ok-injective n count h, refl, refl)
saved_count-ok n count (err e, disks) h = cc

module _ (json : Json) (cookie_json : CookieJson) (f : Faults) (d : Disk) where
  -- A login that returned a count has saved the cookies.
  abbrev IsSaved : Visit → ℕ → Option Login → Type 0
  IsSaved v count o =
      (login : Login)
      → o ≡ some login
      → login.0 ≡ ok count
      → login ≡ save_cookies json cookie_json f d v.cookies

  settled-IsSaved :
      (v : Visit) (count : ℕ) (o : Option GoError)
      → IsSaved v count (some (settled json cookie_json f d v o))
  settled-IsSaved v count (some e) login same h = cc
  settled-IsSaved v count none login same h = cc

  polled-IsSaved :
      (v : Visit) (count : ℕ) (p : PollState) → IsSaved v count (polled json cookie_json f d v p)
  polled-IsSaved v count waiting login same h = cc
  polled-IsSaved v count (gave_up e) login same h = cc
  polled-IsSaved v count logged_in login same h = settled-IsSaved v count v.settling login same h

  navigated-IsSaved :
      (n : ℕ) (v : Visit) (count : ℕ) (o : Option GoError)
      → IsSaved v count (navigated json cookie_json f d n v o)
  navigated-IsSaved n v count (some e) login same h = cc
  navigated-IsSaved n v count none login same h = polled-IsSaved v count _ login same h

  profile_checked-IsSaved :
      (n : ℕ) (v : Visit) (count : ℕ) (o : Option GoError)
      → IsSaved v count (profile_checked json cookie_json f d n v o)
  profile_checked-IsSaved n v count (some e) login same h = cc
  profile_checked-IsSaved n v count none login same h =
      navigated-IsSaved n v count v.navigation login same h

  save_table-ok :
      (table : Table) (raw : List ℕ) (count : ℕ)
      → cookie_json.marshal_map table ≡ ok raw
      → (save_table json cookie_json f d table).0 ≡ ok count
      → (length table ≡ count)
        × ((update json f d (set_cookies raw)).0 ≡ ok tt)
        × ((save_table json cookie_json f d table).1 ≡ (update json f d (set_cookies raw)).1)
  save_table-ok [] raw count m h = cc
  save_table-ok (c ∷ table) raw count m h =
      let n = length (c ∷ table) in
      let marshalled = ap (save_marshalled json cookie_json f d n) m in
      let (same, worked, left) =
        saved_count-ok n count (update json f d (set_cookies raw))
          (sym (ap (λ (l : Login). l.0) marshalled) ∙ h) in
      (same, worked, ap (λ (l : Login). l.1) marshalled ∙ left)

  cookies_loaded-some :
      (s : Secrets) (table : Table)
      → is_empty s.maps_cookies ≡ false
      → cookie_json.unmarshal_map s.maps_cookies ≡ ok table
      → cookies_loaded cookie_json (ok (some s)) ≡ ok table
  cookies_loaded-some s table full reads = rw (full, reads) refl

  -- If AuthenticateMaps returns a count, and the document of the store keeps the cookies in a form
  -- that JSON reads back as a map, LoadMapsCookies then returns just the cookies that were chosen,
  -- and there are as many as the count says.
  pub load_maps_cookies-authenticate_maps :
      (g : Faults) (n : ℕ) (v : Visit) (login : Login) (count : ℕ) (cookies : List Cookie)
      (found : Option Secrets) (raw bytes : List ℕ) (s : Secrets)
      → authenticate_maps json cookie_json f d n v ≡ some login
      → login.0 ≡ ok count
      → v.cookies ≡ ok cookies
      → load json f d ≡ ok found
      → cookie_json.marshal_map (choose_cookies chosen_none cookies).values ≡ ok raw
      → json.marshal (record (or_empty found) { maps_cookies = raw }) ≡ ok bytes
      → json.unmarshal bytes ≡ ok s
      → is_empty s.maps_cookies ≡ false
      → cookie_json.unmarshal_map s.maps_cookies ≡ ok (choose_cookies chosen_none cookies).values
      → g.read ≡ none
      → (load_maps_cookies json cookie_json g (left_by d login.1)
          ≡ ok (choose_cookies chosen_none cookies).values)
        × (length (choose_cookies chosen_none cookies).values ≡ count)
  unfolding authenticate_maps save_cookies load_maps_cookies
  load_maps_cookies-authenticate_maps g n v login count cookies found raw bytes s returned counted
        seen loads marshalled written parses full reads readable =
      let table = (choose_cookies chosen_none cookies).values in
      let saved =
        profile_checked-IsSaved n v count v.profile login returned counted
        ∙ ap (save_cookies json cookie_json f d) seen in
      let (same, worked, left) =
        save_table-ok table raw count marshalled (sym (ap (λ (l : Login). l.0) saved) ∙ counted) in
      let kept =
        load-update json f g d (set_cookies raw) found
          (record (or_empty found) { maps_cookies = raw }) s bytes loads refl written parses
          readable worked in
      (rw (saved, left, kept) (cookies_loaded-some s table full reads), same)
