-- ===== src/Chrome/Profile.antt =====
-- pkg/googlefindmy/chrome/profile.go and pidalive_unix.go, over os.Readlink, os.Hostname and
-- syscall.Kill.
use google_find_my_tools_go.Prelude.{
  ℕ, zero, suc, ◌+◌, ◌-◌, ◌^◌, Bool, true, false, not, ◌&&◌, ◌||◌, List, [], ◌∷◌, ◌++◌, Option,
  none, some, length, take, drop, ltb, ◌==◌, if◌then◌else◌, Result, ok, err,
}
use google_find_my_tools_go.Bytes.{bytes_eq, is_empty}
use google_find_my_tools_go.Decimal.{atoi}
pub mod Owner
mod Tests

-- What syscall.Kill returns: no error, EPERM, or another error.
pub data KillResult : Type 0 where
  delivered eperm other_errno : KillResult

-- processAlive of pidalive_unix.go, on the result of the signal 0.
abbrev pub process_alive : KillResult → Bool
process_alive delivered = true
process_alive eperm = true
process_alive other_errno = false

-- os.Readlink of SingletonLock in a directory and os.Hostname, `none` on an error, and the signal 0
-- to a process.
pub record System : Type 0 where
  pub read_lock : List ℕ → Option (List ℕ)
  pub hostname : Option (List ℕ)
  pub kill : ℕ → KillResult

-- strings.LastIndex(s, c) of a byte: what stands before the last one, and what stands behind it.
abbrev pub cons_before : ℕ → List ℕ × List ℕ → List ℕ × List ℕ
cons_before b (before, after) = (b ∷ before, after)

abbrev pub last_or : ℕ → ℕ → List ℕ → Option (List ℕ × List ℕ) → Option (List ℕ × List ℕ)
last_or c b s (some parts) = some (cons_before b parts)
last_or c b s none = if b == c then some ([], s) else none

unfoldable pub cut_last : ℕ → List ℕ → Option (List ℕ × List ℕ)
cut_last c [] = none
cut_last c (b ∷ s) = last_or c b s (cut_last c s)

-- The pid is the pattern of an int: it is positive if it is neither 0 nor above 2^63.
abbrev pub positive_pid : List ℕ → Option ℕ → Option (List ℕ × ℕ)
positive_pid host none = none
positive_pid host (some pid) = if pid == 0 || not (ltb pid (2 ^ 63)) then none else some (host, pid)

abbrev pub lock_parts : Option (List ℕ × List ℕ) → Option (List ℕ × ℕ)
lock_parts none = none
lock_parts (some (host, after)) =
    if is_empty host || is_empty after then none else positive_pid host (atoi after)

-- parseSingletonLock: the host and the pid.
unfoldable pub parse_singleton_lock : List ℕ → Option (List ℕ × ℕ)
unfolding cut_last atoi
parse_singleton_lock target = lock_parts (cut_last b'-' target)

module _ (system : System) where
  abbrev pub on_this_host : List ℕ → Option (List ℕ) → Bool
  on_this_host host none = false
  on_this_host host (some here) = bytes_eq host here

  abbrev pub live_owner : Option (List ℕ × ℕ) → Option ℕ
  live_owner none = none
  live_owner (some (host, pid)) =
      if not (on_this_host host system.hostname)
      then none
      else if not (process_alive (system.kill pid))
      then none
      else some pid

  abbrev pub lock_owner : Option (List ℕ) → Option ℕ
  lock_owner none = none
  lock_owner (some target) = live_owner (parse_singleton_lock target)

  -- profileOwner: the pid.
  unfoldable pub profile_owner : List ℕ → Option ℕ
  unfolding parse_singleton_lock
  profile_owner dir = lock_owner (system.read_lock dir)

  -- The pid of ErrProfileInUse.
  abbrev pub in_use : Option ℕ → Result ℕ (Unit {0})
  in_use none = ok tt
  in_use (some pid) = err pid

  -- CheckProfileFree
  unfoldable pub check_profile_free : List ℕ → Result ℕ (Unit {0})
  unfolding profile_owner
  check_profile_free dir = if is_empty dir then ok tt else in_use (profile_owner dir)
