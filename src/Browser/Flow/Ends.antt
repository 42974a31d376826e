-- ===== src/Browser/Flow/Ends.antt =====
-- The flows of the browser end by their deadlines.
use google_find_my_tools_go.Prelude.{
  ℕ, zero, suc, ◌+◌, ◌<◌, ◌≡◌, arith, Bool, true, false, List, Option, none, some, if◌then◌else◌,
  Result, ok, err, ◌⊎◌,
}
use google_find_my_tools_go.GoErrors.{GoError}
use google_find_my_tools_go.Chrome.Profile.{System, check_profile_free}
use google_find_my_tools_go.Maps.Login.{Cookie}
use google_find_my_tools_go.Browser.SharedKey.{VaultJson, extract_shared_key}
use google_find_my_tools_go.Browser.Flow.{
  FlowError, timed_out, Round, Ending, selected, looked, poll, then_go, behind, profile_ending,
  look_cookies, look_location, look_keys, hex_ending, with_url, KeyPage, UnlockCodec,
  build_security_domain_url, run_oauth_flow, request_shared_key,
}

-- The deadline is over, or the context done.
abbrev pub Ends {ℓ} : {A : Type ℓ} → Round A → Type 0
Ends r = (r.late ≡ true) ⊎ ((e : GoError) × (r.context ≡ some e))

abbrev pub HasEnded {ℓ} : {A : Type ℓ} → Ending A → Type 0
HasEnded none = ⊥
HasEnded (some ending) = Unit {0}

plus_suc : (i k : ℕ) → i + suc k ≡ suc i + k
plus_suc i k = omega arith

plus_zero : (i : ℕ) → i + 0 ≡ i
plus_zero i = omega arith

zero_plus : (k : ℕ) → 0 + k ≡ k
zero_plus k = omega arith

module _ {ℓ κ} {A : Type ℓ} {B : Type κ} (look : A → Ending B) where
  late-or-done :
      (late : Bool) (o : Option GoError) (later : Ending B)
      → (late ≡ true) ⊎ ((e : GoError) × (o ≡ some e))
      → HasEnded (if late then some (err timed_out) else selected look o later)
  late-or-done true o later h = tt
  late-or-done false (some e) later h = tt
  late-or-done false none later h = ground arith

  looked-HasEnded : (r : Round A) (o later : Ending B) → Ends r → HasEnded (looked look r o later)
  looked-HasEnded r (some ending) later h = tt
  looked-HasEnded r none later h = late-or-done r.late r.context later h

  late-later :
      (late : Bool) (o : Option GoError) (later : Ending B)
      → HasEnded later
      → HasEnded (if late then some (err timed_out) else selected look o later)
  late-later true o later h = tt
  late-later false (some e) later h = tt
  late-later false none later h = h

  looked-later :
      (r : Round A) (o later : Ending B) → HasEnded later → HasEnded (looked look r o later)
  looked-later r (some ending) later h = tt
  looked-later r none later h = late-later r.late r.context later h

  poll-HasEnded :
      (n i k : ℕ) (rounds : ℕ → Round A)
      → Ends (rounds (i + k))
      → k < n
      → HasEnded (poll look n rounds i)
  unfolding poll
  poll-HasEnded zero i k rounds h lt = absurd (omega arith)
  poll-HasEnded (suc n) i zero rounds h lt =
      looked-HasEnded (rounds i) (look (rounds i).seen) _ (rw (plus_zero i) at h)
  poll-HasEnded (suc n) i (suc k) rounds h lt =
      looked-later (rounds i) (look (rounds i).seen) _
        (poll-HasEnded n (suc i) k rounds (rw (plus_suc i k) at h) (omega arith))

  pub poll_finishes :
      (n k : ℕ) (rounds : ℕ → Round A) → Ends (rounds k) → k < n → HasEnded (poll look n rounds 0)
  poll_finishes n k rounds h lt = poll-HasEnded n 0 k rounds (rw (← zero_plus k) at h) lt

then_go-HasEnded {ℓ} :
    {A : Type ℓ} (wrap : GoError → FlowError) (o : Option GoError) (rest : Ending A)
    → HasEnded rest
    → HasEnded (then_go wrap o rest)
then_go-HasEnded wrap (some e) rest h = tt
then_go-HasEnded wrap none rest h = h

behind-HasEnded {ℓ κ} :
    {A : Type ℓ} {B : Type κ} (o : Ending A) (rest : A → Ending B)
    → HasEnded o
    → ((a : A) → HasEnded (rest a))
    → HasEnded (behind o rest)
behind-HasEnded none rest h k = absurd h
behind-HasEnded (some (err e)) rest h k = tt
behind-HasEnded (some (ok a)) rest h k = k a

profile_ending-HasEnded {ℓ} :
    {A : Type ℓ} (r : Result ℕ (Unit {0})) (rest : Ending A)
    → HasEnded rest
    → HasEnded (profile_ending r rest)
profile_ending-HasEnded (err pid) rest h = tt
profile_ending-HasEnded (ok free) rest h = h

hex_ending-HasEnded {ℓ} : {E : Type ℓ} (r : Result E (List ℕ)) → HasEnded (hex_ending r)
hex_ending-HasEnded (err e) = tt
hex_ending-HasEnded (ok key) = tt

-- RunOAuthFlow has returned by the round in which its deadline is over or its context done.
pub run_oauth_flow_finishes :
    (system : System) (dir : List ℕ) (navigate : List ℕ → Option GoError) (n k : ℕ)
    (rounds : ℕ → Round (Result GoError (List Cookie))) (email : List ℕ)
    → Ends (rounds k)
    → k < n
    → HasEnded (run_oauth_flow system dir navigate n rounds email)
unfolding run_oauth_flow
run_oauth_flow_finishes system dir navigate n k rounds email h lt =
    profile_ending-HasEnded (check_profile_free system dir) _
      (then_go-HasEnded _ (navigate _) _ (poll_finishes look_cookies n k rounds h lt))

with_url-HasEnded :
    (page : KeyPage) (json : VaultJson) (n k l : ℕ) (r : Result FlowError (List ℕ))
    → Ends (page.sign_in k)
    → k < n
    → Ends (page.keys l)
    → l < n
    → HasEnded (with_url page json n r)
with_url-HasEnded page json n k l (err e) h lt h' lt' = tt
with_url-HasEnded page json n k l (ok url) h lt h' lt' = then_go-HasEnded _ page.hook _ (
    then_go-HasEnded _ (page.navigate _) _ (
      behind-HasEnded (poll look_location n page.sign_in 0) _
        (poll_finishes look_location n k page.sign_in h lt)
        (λ _. then_go-HasEnded _ (page.navigate url) _ (
          behind-HasEnded (poll look_keys n page.keys 0) _
            (poll_finishes look_keys n l page.keys h' lt')
            (λ keys. hex_ending-HasEnded (extract_shared_key json keys))))))

-- RequestSharedKey has returned once each of its two loops has come to the round in which the
-- deadline is over or the context done, whether the location can be read or not.
pub request_shared_key_finishes :
    (system : System) (dir : List ℕ) (codec : UnlockCodec) (page : KeyPage) (json : VaultJson)
    (n k l : ℕ)
    → Ends (page.sign_in k)
    → k < n
    → Ends (page.keys l)
    → l < n
    → HasEnded (request_shared_key system dir codec page json n)
unfolding request_shared_key
request_shared_key_finishes system dir codec page json n k l h lt h' lt' =
    profile_ending-HasEnded (check_profile_free system dir) _
      (with_url-HasEnded page json n k l (build_security_domain_url codec) h lt h' lt')
