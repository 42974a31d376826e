-- ===== src/Browser/Flow/Key.antt =====
-- The text that RequestSharedKey returns, and how GetOwnerKey reads it.
use google_find_my_tools_go.Prelude.{
  ℕ, zero, suc, ◌≡◌, refl, sym, ap, ◌∙◌, arith, Bool, true, false, not, ◌&&◌, List, Option, none,
  some, if◌then◌else◌, Result, ok, err, ◌⊎◌, inl, inr,
}
use google_find_my_tools_go.GoErrors.{GoError}
use google_find_my_tools_go.Bytes.{codes, bytes_eq, is_empty}
use google_find_my_tools_go.Hex.{encode_hex, decode_hex, decode_hex-encode_hex}
use google_find_my_tools_go.Chrome.Profile.{System, check_profile_free}
use google_find_my_tools_go.Browser.SharedKey.{VaultJson, KeyError, extract_shared_key}
use google_find_my_tools_go.Browser.SharedKey.Bytes.{
  HoldsKey-All, IsSharedKey, extract_shared_key_iff,
}
use google_find_my_tools_go.Browser.Flow.{
  FlowError, timed_out, page_closed, Round, Ending, selected, looked, poll, then_go, behind,
  profile_ending, look_location, look_keys, hex_ending, with_url, KeyPage, UnlockCodec,
  build_security_domain_url, request_shared_key,
}

-- The text is that of a key which stands in a payload that some round of the loop has shown.
abbrev pub IsKeyText : VaultJson → KeyPage → List ℕ → Type 0
IsKeyText json page shown =
    (i : ℕ) × (keys : List ℕ) × (key : List ℕ) × ((page.keys i).seen ≡ ok (false, keys))
    × IsSharedKey json keys key
    × (decode_hex shown ≡ some key)

module _ {ℓ κ} {A : Type ℓ} {B : Type κ} (look : A → Ending B) where
  looked-ok :
      (r : Round A) (o later : Ending B) (b : B)
      → looked look r o later ≡ some (ok b)
      → (o ≡ some (ok b)) ⊎ (later ≡ some (ok b))
  looked-ok r (some ending) later b h = inl h
  looked-ok r none later b h = inr (waited r.late r.context h)
    where
      waited :
          (late : Bool) (o : Option GoError)
          → (if late then some (err timed_out) else selected look o later) ≡ some (ok b)
          → later ≡ some (ok b)
      waited true o h = ground arith
      waited false (some e) h = ground arith
      waited false none h = h

  -- What a loop ends with was seen in a round of it.
  poll-seen :
      (n i : ℕ) (rounds : ℕ → Round A) (b : B)
      → poll look n rounds i ≡ some (ok b)
      → (j : ℕ) × (look (rounds j).seen ≡ some (ok b))
  unfolding poll
  poll-seen zero i rounds b h = ground arith
  poll-seen (suc n) i rounds b h =
      elim (looked-ok (rounds i) (look (rounds i).seen) (poll look n rounds (suc i)) b h) [
        | inl seen ↦ (i, seen)
        | inr later ↦ poll-seen n (suc i) rounds b later
      ]

open_keys :
    (closed full : Bool) (keys keys' : List ℕ)
    → ◌≡◌ {A = Ending (List ℕ)}
        (if closed then some (err page_closed) else if full then some (ok keys) else none)
        (some (ok keys'))
    → (closed ≡ false) × (keys ≡ keys')
open_keys true full keys keys' h = ground arith
open_keys false true keys keys' h = (refl, cc)
open_keys false false keys keys' h = ground arith

look_keys-ok :
    (r : Result GoError (Bool × List ℕ)) (keys : List ℕ)
    → look_keys r ≡ some (ok keys)
    → r ≡ ok (false, keys)
look_keys-ok (err e) keys h = ground arith
look_keys-ok (ok (closed, keys')) keys h =
    let (is_open, same) =
      open_keys closed (not (is_empty keys') && not (bytes_eq keys' (codes "null"))) keys' keys h in
    rw (is_open, same) refl

then_go-ok {ℓ} :
    {A : Type ℓ} (wrap : GoError → FlowError) (o : Option GoError) (rest : Ending A) (a : A)
    → then_go wrap o rest ≡ some (ok a)
    → rest ≡ some (ok a)
then_go-ok wrap (some e) rest a h = ground arith
then_go-ok wrap none rest a h = h

behind-ok {ℓ κ} :
    {A : Type ℓ} {B : Type κ} (o : Ending A) (rest : A → Ending B) (b : B)
    → behind o rest ≡ some (ok b)
    → (a : A) × (o ≡ some (ok a)) × (rest a ≡ some (ok b))
behind-ok none rest b h = ground arith
behind-ok (some (err e)) rest b h = ground arith
behind-ok (some (ok a)) rest b h = (a, refl, h)

profile_ending-ok {ℓ} :
    {A : Type ℓ} (r : Result ℕ (Unit {0})) (rest : Ending A) (a : A)
    → profile_ending r rest ≡ some (ok a)
    → rest ≡ some (ok a)
profile_ending-ok (err pid) rest a h = ground arith
profile_ending-ok (ok free) rest a h = h

hex_ending-ok :
    (r : Result KeyError (List ℕ)) (shown : List ℕ)
    → hex_ending r ≡ some (ok shown)
    → (key : List ℕ) × (r ≡ ok key) × (encode_hex key ≡ shown)
hex_ending-ok (err e) shown h = ground arith
hex_ending-ok (ok key) shown h = (key, refl, cc)

with_url-ok :
    (page : KeyPage) (json : VaultJson) (n : ℕ) (r : Result FlowError (List ℕ)) (shown : List ℕ)
    → with_url page json n r ≡ some (ok shown)
    → IsKeyText json page shown
with_url-ok page json n (err e) shown h = ground arith
with_url-ok page json n (ok url) shown h =
    let accounts = then_go-ok _ page.hook _ shown h in
    let signing = then_go-ok _ (page.navigate _) _ shown accounts in
    let (done, signed, rest) = behind-ok (poll look_location n page.sign_in 0) _ shown signing in
    let unlocking = then_go-ok _ (page.navigate url) _ shown rest in
    let (keys, polled, last) = behind-ok (poll look_keys n page.keys 0) _ shown unlocking in
    let (i, seen) = poll-seen look_keys n 0 page.keys keys polled in
    let (key, extracted, same) = hex_ending-ok (extract_shared_key json keys) shown last in
    let is_key = (extract_shared_key_iff json keys key).0 extracted in
    let bytes = HoldsKey-All is_key.members 0 key is_key.holds in
    (
      i,
      keys,
      key,
      look_keys-ok (page.keys i).seen keys seen,
      is_key,
      ap decode_hex (sym same) ∙ decode_hex-encode_hex key bytes,
    )

-- A text that RequestSharedKey returns is read back, by the decoding of GetOwnerKey, as the key of
-- 32 bytes in the newest entry of the vault that an open page handed over in some round.
pub request_shared_key-IsKeyText :
    (system : System) (dir : List ℕ) (codec : UnlockCodec) (page : KeyPage) (json : VaultJson)
    (n : ℕ) (shown : List ℕ)
    → request_shared_key system dir codec page json n ≡ some (ok shown)
    → IsKeyText json page shown
unfolding request_shared_key
request_shared_key-IsKeyText system dir codec page json n shown h =
    with_url-ok page json n (build_security_domain_url codec) shown
      (profile_ending-ok (check_profile_free system dir) _ shown h)
