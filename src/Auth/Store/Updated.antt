-- ===== src/Auth/Store/Updated.antt =====
-- An Update of the store that returns nil has read, changed and written the secrets.
use google_find_my_tools_go.Prelude.{
  ◌≡◌, refl, List, Option, none, some, Result, ok, err, ℕ, arith, ◌<◌, All,
}
use google_find_my_tools_go.GoErrors.{GoError}
use google_find_my_tools_go.Auth.Store.{
  Secrets, Json, File, Disk, Faults, left_by, load, save, save_bytes, save_result, load_file,
  update, update_loaded, or_empty,
}
use google_find_my_tools_go.Auth.Store.Atomic.{load-update}

-- A document that json.MarshalIndent has made is read, and gives an owner key of ASCII characters
-- back. Of the other fields nothing is said: the raw documents among them are indented anew.
abbrev pub KeepsOwnerKey : Json → Type 0
KeepsOwnerKey json =
    (secrets : Secrets) (bytes : List ℕ)
    → json.marshal secrets ≡ ok bytes
    → All (λ b. b < 128) secrets.owner_key
    → (read : Secrets) × (json.unmarshal bytes ≡ ok read) × (read.owner_key ≡ secrets.owner_key)

load_file-readable :
    (json : Json) (file : Option File) (failure : Option GoError) (secrets : Secrets)
    → load_file json file failure ≡ ok (some secrets)
    → load_file json file none ≡ ok (some secrets)
load_file-readable json file none secrets h = h
load_file-readable json file (some e) secrets h = ground arith

-- What a Load finds, another finds too that can read the file.
pub load-load :
    (json : Json) (f g : Faults) (d : Disk) (secrets : Secrets)
    → load json f d ≡ ok (some secrets)
    → g.read ≡ none
    → load json g d ≡ ok (some secrets)
unfolding load
load-load json f g d secrets loads readable =
    rw readable (load_file-readable json d.secrets f.read secrets loads)

module _ (json : Json) (f : Faults) (d : Disk) where
  marshal-ok :
      (m : Result GoError (List ℕ))
      → (save_bytes f d m).0 ≡ ok tt
      → (bytes : List ℕ) × (m ≡ ok bytes)
  marshal-ok (err e) h = ground arith
  marshal-ok (ok bytes) h = (bytes, refl)

  change-ok :
      (r : Result GoError Secrets)
      → (save_result json f d r).0 ≡ ok tt
      → (secrets : Secrets) × (bytes : List ℕ) × (r ≡ ok secrets)
        × (json.marshal secrets ≡ ok bytes)
  unfolding save
  change-ok (err e) h = ground arith
  change-ok (ok secrets) h =
      let (bytes, marshalled) = marshal-ok (json.marshal secrets) h in
      (secrets, bytes, refl, marshalled)

  module _ (change : Secrets → Result GoError Secrets) where
    abbrev IsChanged : Result GoError (Option Secrets) → Type 0
    IsChanged loaded =
        (found : Option Secrets) × (secrets : Secrets) × (bytes : List ℕ) × (loaded ≡ ok found)
        × (change (or_empty found) ≡ ok secrets)
        × (json.marshal secrets ≡ ok bytes)

    load-ok :
        (loaded : Result GoError (Option Secrets))
        → (update_loaded json f d change loaded).0 ≡ ok tt
        → IsChanged loaded
    load-ok (err e) h = ground arith
    load-ok (ok found) h =
        let (secrets, bytes, changed, marshalled) = change-ok (change (or_empty found)) h in
        (found, secrets, bytes, refl, changed, marshalled)

    -- Behind an Update that returned nil, Load finds the owner key that the change made, if that is
    -- ASCII, the document keeps it and the file can be read.
    pub load-update_found :
        (g : Faults)
        → KeepsOwnerKey json
        → g.read ≡ none
        → ((old secrets : Secrets) → change old ≡ ok secrets → All (λ b. b < 128) secrets.owner_key)
        → (update json f d change).0 ≡ ok tt
        → (old secrets read : Secrets) × (change old ≡ ok secrets)
          × (load json g (left_by d (update json f d change).1) ≡ ok (some read))
          × (read.owner_key ≡ secrets.owner_key)
    unfolding update
    load-update_found g keeps readable ascii worked =
        let (found, secrets, bytes, loads, changed, marshalled) = load-ok (load json f d) worked in
        let (read, reads, same) =
          keeps secrets bytes marshalled (ascii (or_empty found) secrets changed) in
        (
          or_empty found,
          secrets,
          read,
          changed,
          load-update json f g d change found secrets read bytes loads changed marshalled reads
              readable worked,
          same,
        )
