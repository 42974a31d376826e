-- ===== src/Chrome/Profile/Tests.antt =====
-- The lock of a profile at concrete ones.
use google_find_my_tools_go.Prelude.{
  ℕ, ◌≡◌, refl, ◌&&◌, List, some, ok, err, ◌==◌, if◌then◌else◌, arith,
}
use google_find_my_tools_go.Bytes.{codes}
use google_find_my_tools_go.Chrome.Profile.{
  process_alive, eperm, other_errno, System, on_this_host, check_profile_free,
}
use google_find_my_tools_go.Chrome.Profile.Owner.{lock, check_profile_free-lock}

abbrev host : List ℕ
host = codes "my-host"

abbrev system : System
system = record {
  read_lock = λ dir. some (lock host 4711);
  hostname = some host;
  kill = λ pid. if pid == 4711 then eperm else other_errno;
}

check_profile_free-lock_example : check_profile_free system (codes "/p") ≡ (
    if on_this_host system host system.hostname && process_alive (system.kill 4711)
    then err 4711
    else ok tt)
check_profile_free-lock_example =
    check_profile_free-lock system (codes "/p") host 4711 refl refl (omega arith) (omega arith) refl
