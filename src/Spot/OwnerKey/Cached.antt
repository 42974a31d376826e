-- ===== src/Spot/OwnerKey/Cached.antt =====
-- GetOwnerKey keeps the key that it returned: the next call takes it from the store.
use google_find_my_tools_go.Prelude.{
  ℕ, ◌<◌, ◌≡◌, refl, sym, ap, ◌∙◌, false, List, [], ◌∷◌, All, Option, none, some, Result, ok, err,
  arith, ok-injective,
}
use mathlib.Core.Path.{subst}
use google_find_my_tools_go.GoErrors.{GoError}
use google_find_my_tools_go.Bytes.{is_empty}
use google_find_my_tools_go.Hex.{encode_hex, encode_hex-All, decode_hex-encode_hex}
use google_find_my_tools_go.Http.{Network}
use google_find_my_tools_go.Auth.Store.{Secrets, Json, Disk, Faults, Saving, left_by, load, update}
use google_find_my_tools_go.Auth.Store.Updated.{KeepsOwnerKey, load-load, load-update_found}
use google_find_my_tools_go.Crypto.KeyBackup.{Ciphers}
use google_find_my_tools_go.Spot.Client.{SpotCodec}
use google_find_my_tools_go.Spot.OwnerKey.{
  OwnerKeyError, full_key, cached_key, set_owner_key, fetch_owner_key, cached, cache_key,
  cached_or_fetched, with_secrets, get_owner_key,
}

cached_key-encode_hex :
    (key : List ℕ)
    → All (λ b. b < 256) key
    → is_empty key ≡ false
    → cached_key (encode_hex key) ≡ some key
unfolding cached_key encode_hex
cached_key-encode_hex [] bytes full = ground arith
cached_key-encode_hex (b ∷ key) bytes full = ap full_key (decode_hex-encode_hex (b ∷ key) bytes)

-- The key that is stored is ASCII.
made-ascii :
    (key : List ℕ) (old secrets : Secrets)
    → All (λ b. b < 256) key
    → set_owner_key key old ≡ ok secrets
    → All (λ b. b < 128) secrets.owner_key
made-ascii key old secrets bytes changed =
    subst (λ (x : Secrets). All (λ b. b < 128) x.owner_key) (ok-injective _ _ changed)
      (encode_hex-All key bytes)

module _ {ℓ} {S : Type ℓ} (net : Network S) (ciphers : Ciphers) (codec : SpotCodec)
    (android_id : List ℕ → Result GoError (Option ℕ)) (json : Json) where
  -- The file has the key, whatever else it has.
  abbrev HasKey : Faults → Disk → List ℕ → Type 0
  HasKey h d key =
      (secrets : Secrets) × (load json h d ≡ ok (some secrets))
      × (cached_key secrets.owner_key ≡ some key)

  get_owner_key-HasKey :
      (h i : Faults) (t : S) (d : Disk) (key : List ℕ)
      → HasKey h d key
      → get_owner_key net ciphers codec android_id json h i (t, d) ≡ ((t, d), ok key)
  unfolding get_owner_key
  get_owner_key-HasKey h i t d key (secrets, loads, has) = rw (loads, has) refl

  -- A key of bytes that was returned stands in the file.
  abbrev Kept : Faults → (S × Disk) × Result OwnerKeyError (List ℕ) → Type 0
  Kept h ((s, d), err e) = Unit {0}
  Kept h ((s, d), ok key) = All (λ b. b < 256) key → is_empty key ≡ false → HasKey h d key

  cached-Kept :
      (h : Faults) (key : List ℕ) (s : S) (d : Disk) (u : Saving)
      → (u.0 ≡ ok tt → All (λ b. b < 256) key → is_empty key ≡ false → HasKey h (left_by d u.1) key)
      → Kept h (cached net ciphers codec android_id json key s d u)
  cached-Kept h key s d (ok _, disks) keep = keep refl
  cached-Kept h key s d (err e, disks) keep = tt

  cache_key-Kept :
      (g h : Faults) (d : Disk) (r : S × Result OwnerKeyError (List ℕ))
      → KeepsOwnerKey json
      → h.read ≡ none
      → Kept h (cache_key net ciphers codec android_id json g d r)
  cache_key-Kept g h d (s, err e) keeps readable = tt
  cache_key-Kept g h d (s, ok key) keeps readable =
      cached-Kept h key s d (update json g d (set_owner_key key)) (λ worked bytes full.
        let (old, secrets, read, changed, loads, same) =
          load-update_found json g d (set_owner_key key) h keeps readable
            (λ old secrets changed. made-ascii key old secrets bytes changed) worked in
        let new = ok-injective _ _ (sym changed) in
        (
          read,
          loads,
          ap cached_key same
              ∙ ap (λ (x : Secrets). cached_key x.owner_key) new
              ∙ cached_key-encode_hex key bytes full,
        ))

  cached_or_fetched-Kept :
      (f g h : Faults) (s : S) (d : Disk) (secrets : Secrets) (o : Option (List ℕ))
      → KeepsOwnerKey json
      → h.read ≡ none
      → load json f d ≡ ok (some secrets)
      → cached_key secrets.owner_key ≡ o
      → Kept h (cached_or_fetched net ciphers codec android_id json g s d secrets o)
  cached_or_fetched-Kept f g h s d secrets (some key) keeps readable loads has =
      λ bytes full. (secrets, load-load json f h d secrets loads readable, has)
  cached_or_fetched-Kept f g h s d secrets none keeps readable loads has =
      cache_key-Kept g h d (fetch_owner_key net ciphers codec android_id json secrets s) keeps
        readable

  with_secrets-Kept :
      (f g h : Faults) (s : S) (d : Disk) (found : Result GoError (Option Secrets))
      → KeepsOwnerKey json
      → h.read ≡ none
      → load json f d ≡ found
      → Kept h (with_secrets net ciphers codec android_id json g s d found)
  with_secrets-Kept f g h s d (err e) keeps readable loads = tt
  with_secrets-Kept f g h s d (ok none) keeps readable loads = tt
  with_secrets-Kept f g h s d (ok (some secrets)) keeps readable loads =
      cached_or_fetched-Kept f g h s d secrets (cached_key secrets.owner_key) keeps readable loads
        refl

  -- If GetOwnerKey returns a key of at least one byte, and the document of the store gives an owner
  -- key of ASCII characters back, whatever becomes of its other fields, the next call returns the same key, whatever the network has become: it sends no
  -- request and does not change the store, if it can read the file.
  pub get_owner_key-get_owner_key :
      (f g h i : Faults) (s s' t : S) (d d' : Disk) (key : List ℕ)
      → KeepsOwnerKey json
      → h.read ≡ none
      → All (λ b. b < 256) key
      → is_empty key ≡ false
      → get_owner_key net ciphers codec android_id json f g (s, d) ≡ ((s', d'), ok key)
      → get_owner_key net ciphers codec android_id json h i (t, d') ≡ ((t, d'), ok key)
  unfolding get_owner_key
  get_owner_key-get_owner_key f g h i s s' t d d' key keeps readable bytes full returned =
      let kept = with_secrets-Kept f g h s d (load json f d) keeps readable refl in
      get_owner_key-HasKey h i t d' key (subst (Kept h) returned kept bytes full)
