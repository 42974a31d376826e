-- ===== src/Auth/Store/Tests.antt =====
-- The theorems of the credential store at a disk without secrets and with a toy document format.
use google_find_my_tools_go.Prelude.{ℕ, true, ◌≡◌, refl, List, [], ◌∷◌, none, some, ok}
use google_find_my_tools_go.GoErrors.{message}
use google_find_my_tools_go.Auth.Store.{
  Secrets, Json, Disk, Faults, no_secrets, left_by, save, load, update,
}
use google_find_my_tools_go.Auth.Store.Atomic.{Saved, save-Saved, load-update}

-- A format that keeps the user's name alone.
abbrev name_only : List ℕ → Secrets
name_only name = record no_secrets { username = name }

abbrev json : Json
json = record { marshal = λ s. ok s.username; unmarshal = λ bytes. ok (name_only bytes) }

abbrev fresh : Disk
fresh = record { secrets = none; temp = none }

abbrev working : Faults
working = record {
  read = none;
  create = none;
  write = none;
  written = 0;
  sync = none;
  close = none;
  rename = none;
  removes = true;
}

save-Saved_example :
    Saved fresh
      (1 ∷ [])
      (save json (record working { rename = some (message "busy") }) fresh (name_only (1 ∷ [])))
save-Saved_example =
    save-Saved json (record working { rename = some (message "busy") }) fresh (name_only (1 ∷ []))
      (1 ∷ []) refl

load-update_example :
    load json working (left_by fresh (update json working fresh (λ s. ok (name_only (1 ∷ [])))).1)
    ≡ ok (some (name_only (1 ∷ [])))
unfolding load update save
load-update_example =
    load-update json working working fresh (λ s. ok (name_only (1 ∷ []))) none (name_only (1 ∷ []))
      (name_only (1 ∷ [])) (1 ∷ []) refl refl refl refl refl refl
