-- ===== src/Auth/Store.antt =====
-- Store of pkg/googlefindmy/auth/store.go over a disk with two files, secrets.json and the
-- temporary file beside it. The mutex is held for each method, so a method is one step.
use google_find_my_tools_go.Prelude.{
  ℕ, Bool, true, false, List, [], ◌∷◌, ◌++◌, take, Option, none, some,
}
use google_find_my_tools_go.Prelude.{Result, ok, err, wrap_err, if◌then◌else◌}
use google_find_my_tools_go.GoErrors.{GoError, wrapped}
pub mod Atomic
pub mod Updated
mod Tests

pub record Secrets : Type 0 where
  pub oauth_token : List ℕ
  pub aas_token : List ℕ
  pub username : List ℕ
  pub shared_key : List ℕ
  pub owner_key : List ℕ
  pub fcm_credentials : List ℕ
  pub maps_cookies : List ℕ

-- &Secrets{}
abbrev pub no_secrets : Secrets
no_secrets = record {
  oauth_token = [];
  aas_token = [];
  username = [];
  shared_key = [];
  owner_key = [];
  fcm_credentials = [];
  maps_cookies = [];
}

-- json.MarshalIndent and json.Unmarshal.
pub record Json : Type 0 where
  pub marshal : Secrets → Result GoError (List ℕ)
  pub unmarshal : List ℕ → Result GoError Secrets

-- A file: the bytes that a process reads, and whether they have left the page cache. If they have
-- not, a crash of the machine may leave anything of them.
pub record File : Type 0 where
  pub bytes : List ℕ
  pub synced : Bool

abbrev pub on_disk : List ℕ → File
on_disk bytes = record { bytes = bytes; synced = true }

abbrev pub in_cache : List ℕ → File
in_cache bytes = record { bytes = bytes; synced = false }

-- The two files, `none` if there is no such file.
pub record Disk : Type 0 where
  pub secrets : Option File
  pub temp : Option File

-- What goes wrong in a call: the error of each file operation (for a read, other than that there is
-- no file), the number of bytes that a failing
-- write has written, and whether os.Remove removes the temporary file.
pub record Faults : Type 0 where
  pub read : Option GoError
  pub create : Option GoError
  pub write : Option GoError
  pub written : ℕ
  pub sync : Option GoError
  pub close : Option GoError
  pub rename : Option GoError
  pub removes : Bool

-- A call's result, and the disk behind each of its file operations, the last one first: a
-- call that is stopped between two operations leaves one of them.
abbrev pub Saving : Type 0
Saving = Result GoError (Unit {0}) × List Disk

-- The disk that a call leaves.
abbrev pub left_by : Disk → List Disk → Disk
left_by d [] = d
left_by d (d' ∷ ds) = d'

abbrev pub remove_temp : Bool → Disk → Disk
remove_temp removes d = if removes then record d { temp = none } else d

-- `return` behind os.Remove(tmp)
abbrev pub give_up : Faults → GoError → Disk → List Disk → Saving
give_up f e d before = (err e, remove_temp f.removes d ∷ d ∷ before)

-- os.Rename puts the temporary file in the place of secrets.json.
abbrev pub rename_step : Faults → Disk → List Disk → Option GoError → Saving
rename_step f d before (some e) = give_up f (wrapped "rename" e) d before
rename_step f d before none = (ok tt, record { secrets = d.temp; temp = none } ∷ d ∷ before)

abbrev pub close_step : Faults → Disk → List Disk → Option GoError → Saving
close_step f d before (some e) = give_up f (wrapped "close temp" e) d before
close_step f d before none = rename_step f d (d ∷ before) f.rename

abbrev pub flush : Option File → Option File
flush none = none
flush (some file) = some (on_disk file.bytes)

-- f.Sync writes the bytes of the temporary file to the disk.
abbrev pub sync_step : Faults → Disk → List Disk → Option GoError → Saving
sync_step f d before (some e) = give_up f (wrapped "sync temp" e) d before
sync_step f d before none = close_step f (record d { temp = flush d.temp }) (d ∷ before) f.close

abbrev pub write_step : Faults → List ℕ → Disk → List Disk → Option GoError → Saving
write_step f bytes d before (some e) =
    give_up f (wrapped "write temp" e) (record d { temp = some (in_cache (take f.written bytes)) })
      before
write_step f bytes d before none =
    sync_step f (record d { temp = some (in_cache bytes) }) before f.sync

abbrev pub create_step : Faults → List ℕ → Disk → Option GoError → Saving
create_step f bytes d (some e) = (err (wrapped "create temp" e), [])
create_step f bytes d none =
    write_step f bytes d (record d { temp = some (in_cache []) } ∷ []) f.write

abbrev pub save_bytes : Faults → Disk → Result GoError (List ℕ) → Saving
save_bytes f d (err e) = (err (wrapped "marshal secrets" e), [])
save_bytes f d (ok bytes) = create_step f bytes d f.create

-- Save. Without the sync of the directory a crash may bring the file back that was there before the
-- rename; the code ignores its error, and which of the two it is, is not modelled.
unfoldable pub save : Json → Faults → Disk → Secrets → Saving
save json f d secrets = save_bytes f d (json.marshal secrets)

abbrev pub parsed : Result GoError Secrets → Result GoError (Option Secrets)
parsed (ok s) = ok (some s)
parsed (err e) = err (wrapped "parse secrets" e)

abbrev pub load_file : Json → Option File → Option GoError → Result GoError (Option Secrets)
load_file json file (some e) = err (wrapped "load secrets" e)
load_file json none none = ok none
load_file json (some file) none = parsed (json.unmarshal file.bytes)

-- Load: nil and no error if there is no file.
unfoldable pub load : Json → Faults → Disk → Result GoError (Option Secrets)
load json f d = load_file json d.secrets f.read

abbrev pub or_empty : Option Secrets → Secrets
or_empty none = no_secrets
or_empty (some s) = s

abbrev pub save_result : Json → Faults → Disk → Result GoError Secrets → Saving
save_result json f d (err e) = (err e, [])
save_result json f d (ok s) = save json f d s

abbrev pub update_loaded :
    Json
    → Faults
    → Disk
    → (Secrets → Result GoError Secrets)
    → Result GoError (Option Secrets)
    → Saving
update_loaded json f d change (err e) = (err e, [])
update_loaded json f d change (ok s) = save_result json f d (change (or_empty s))

-- Update, with fn as a function from the secrets to the changed secrets or an error.
unfoldable pub update : Json → Faults → Disk → (Secrets → Result GoError Secrets) → Saving
update json f d change = update_loaded json f d change (load json f d)

-- Exists, where os.Stat fails only for a missing file.
unfoldable pub exists : Disk → Bool
exists d = elim d.secrets [ none ↦ false | some file ↦ true ]

-- Clear, with the error of os.Remove for a file that is there.
unfoldable pub clear : Option GoError → Disk → Result GoError (Unit {0}) × Disk
clear failure d = elim d.secrets [
  | none ↦ (ok tt, d)
  | some file ↦ elim failure [ some e ↦ (err e, d) | none ↦ (ok tt, record d { secrets = none }) ]
]
