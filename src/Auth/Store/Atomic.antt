-- ===== src/Auth/Store/Atomic.antt =====
-- Save and Update of Store (pkg/googlefindmy/auth/store.go) replace secrets.json whole or not at
-- all.
use google_find_my_tools_go.Prelude.{
  ℕ, Bool, true, false, ◌≡◌, ◌∙◌, refl, sym, ap, arith, List, [], ◌∷◌, take, All, Option, none,
  some, Result, ok, err, ◌⊎◌, inl, inr,
}
use google_find_my_tools_go.GoErrors.{GoError, wrapped}
use google_find_my_tools_go.Auth.Store.{
  Secrets, Json, File, on_disk, in_cache, Disk, Faults, Saving, left_by, remove_temp, give_up,
  rename_step, close_step, sync_step, write_step, create_step, save, load, load_file, parsed,
  update, or_empty,
}

-- secrets.json is as before, or it has all the bytes, and they are on the disk.
abbrev pub Whole : Option File → List ℕ → Disk → Type 0
Whole old bytes d = (d.secrets ≡ old) ⊎ (d.secrets ≡ some (on_disk bytes))

-- Every disk that a stop between two operations leaves is whole; a call that returns nil has
-- replaced the file and left no temporary file, and one that returns an error has kept the file.
abbrev pub Saved : Disk → List ℕ → Saving → Type 0
Saved d bytes (ok _, ds) =
    All (Whole d.secrets bytes) ds
    × (left_by d ds ≡ record { secrets = some (on_disk bytes); temp = none })
Saved d bytes (err e, ds) = All (Whole d.secrets bytes) ds × ((left_by d ds).secrets ≡ d.secrets)

module _ (d : Disk) (f : Faults) (bytes : List ℕ) where
  abbrev AllWhole : List Disk → Type 0
  AllWhole = All (Whole d.secrets bytes)

  remove_temp-secrets : (removes : Bool) (d' : Disk) → (remove_temp removes d').secrets ≡ d'.secrets
  remove_temp-secrets true d' = refl
  remove_temp-secrets false d' = refl

  give_up-Saved :
      (e : GoError) (d' : Disk) (before : List Disk)
      → d'.secrets ≡ d.secrets
      → AllWhole before
      → Saved d bytes (give_up f e d' before)
  give_up-Saved e d' before same whole =
      let kept = remove_temp-secrets f.removes d' ∙ same in ((inl kept, (inl same, whole)), kept)

  -- The disk with the temporary file written, and synced.
  abbrev written : Disk
  written = record d { temp = some (in_cache bytes) }

  abbrev ready : Disk
  ready = record d { temp = some (on_disk bytes) }

  rename_step-Saved :
      (before : List Disk) (failure : Option GoError)
      → AllWhole before
      → Saved d bytes (rename_step f ready before failure)
  rename_step-Saved before (some e) whole =
      give_up-Saved (wrapped "rename" e) ready before refl whole
  rename_step-Saved before none whole = ((inr refl, (inl refl, whole)), refl)

  close_step-Saved :
      (before : List Disk) (failure : Option GoError)
      → AllWhole before
      → Saved d bytes (close_step f ready before failure)
  close_step-Saved before (some e) whole =
      give_up-Saved (wrapped "close temp" e) ready before refl whole
  close_step-Saved before none whole = rename_step-Saved (ready ∷ before) f.rename (inl refl, whole)

  sync_step-Saved :
      (before : List Disk) (failure : Option GoError)
      → AllWhole before
      → Saved d bytes (sync_step f written before failure)
  sync_step-Saved before (some e) whole =
      give_up-Saved (wrapped "sync temp" e) written before refl whole
  sync_step-Saved before none whole = close_step-Saved (written ∷ before) f.close (inl refl, whole)

  write_step-Saved :
      (before : List Disk) (failure : Option GoError)
      → AllWhole before
      → Saved d bytes (write_step f bytes d before failure)
  write_step-Saved before (some e) whole =
      give_up-Saved (wrapped "write temp" e)
        (record d { temp = some (in_cache (take f.written bytes)) }) before refl whole
  write_step-Saved before none whole = sync_step-Saved before f.sync whole

  create_step-Saved : (failure : Option GoError) → Saved d bytes (create_step f bytes d failure)
  create_step-Saved (some e) = (tt, refl)
  create_step-Saved none =
      write_step-Saved (record d { temp = some (in_cache []) } ∷ []) f.write (inl refl, tt)

-- Whatever file operation of Save fails, and between whichever two of them it is stopped,
-- secrets.json is as it was or holds all the new bytes, which are synced, so that a crash does not
-- cut them: the new bytes if Save returns nil, the old ones if it returns an error.
pub save-Saved :
    (json : Json) (f : Faults) (d : Disk) (secrets : Secrets) (bytes : List ℕ)
    → json.marshal secrets ≡ ok bytes
    → Saved d bytes (save json f d secrets)
unfolding save
save-Saved json f d secrets bytes marshalled = rw marshalled (create_step-Saved d f bytes f.create)

Saved-left :
    (d : Disk) (bytes : List ℕ) (r : Saving)
    → Saved d bytes r
    → r.0 ≡ ok tt
    → left_by d r.1 ≡ record { secrets = some (on_disk bytes); temp = none }
Saved-left d bytes (ok _, ds) (whole, left) worked = left
Saved-left d bytes (err e, ds) h worked = ground arith

load-new :
    (json : Json) (g : Faults) (bytes : List ℕ) (secrets : Secrets)
    → g.read ≡ none
    → json.unmarshal bytes ≡ ok secrets
    → load json g (record { secrets = some (on_disk bytes); temp = none }) ≡ ok (some secrets)
unfolding load
load-new json g bytes secrets readable parses =
    ap (load_file json (some (on_disk bytes))) readable ∙ ap parsed parses

update-save :
    (json : Json) (f : Faults) (d : Disk) (change : Secrets → Result GoError Secrets)
    (found : Option Secrets) (secrets : Secrets)
    → load json f d ≡ ok found
    → change (or_empty found) ≡ ok secrets
    → update json f d change ≡ save json f d secrets
unfolding update
update-save json f d change found secrets loads changes = rw (loads, changes) refl

-- Once Update has returned nil, Load returns what the document format reads back of the secrets
-- that fn made, out of those that Load found before or of empty ones if there was no file.
pub load-update :
    (json : Json) (f g : Faults) (d : Disk) (change : Secrets → Result GoError Secrets)
    (found : Option Secrets) (secrets secrets' : Secrets) (bytes : List ℕ)
    → load json f d ≡ ok found
    → change (or_empty found) ≡ ok secrets
    → json.marshal secrets ≡ ok bytes
    → json.unmarshal bytes ≡ ok secrets'
    → g.read ≡ none
    → (update json f d change).0 ≡ ok tt
    → load json g (left_by d (update json f d change).1) ≡ ok (some secrets')
load-update json f g d change found secrets secrets' bytes loads changes marshalled parses readable
      worked =
    let same = update-save json f d change found secrets loads changes in
    let replaced =
      Saved-left d bytes (save json f d secrets) (save-Saved json f d secrets bytes marshalled)
        (sym (ap (λ r. r.0) same) ∙ worked) in
    ap (λ (r : Saving). load json g (left_by d r.1)) same
    ∙ ap (load json g) replaced
    ∙ load-new json g bytes secrets' readable parses
