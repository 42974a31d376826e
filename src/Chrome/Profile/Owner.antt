-- ===== src/Chrome/Profile/Owner.antt =====
-- Which locks CheckProfileFree refuses.
use google_find_my_tools_go.Prelude.{
  ℕ, ◌<◌, ◌^◌, ◌≡◌, refl, Bool, true, false, not, ◌&&◌, ◌||◌, List, [], ◌∷◌, ◌++◌, none, some, ltb,
  ◌==◌, if◌then◌else◌, ok, err, All, arith,
}
use google_find_my_tools_go.Bytes.{is_empty}
use google_find_my_tools_go.Decimal.{digit, format_decimal}
use google_find_my_tools_go.Decimal.Read.{
  atoi-format_decimal, digits_loop-All, format_decimal-filled,
}
use google_find_my_tools_go.Chrome.Profile.{
  process_alive, System, cut_last, parse_singleton_lock, on_this_host, profile_owner, in_use,
  check_profile_free,
}

abbrev NoDash : List ℕ → Type 0
NoDash = All (λ c. (c == b'-') ≡ false)

cut_last-none : (s : List ℕ) → NoDash s → cut_last b'-' s ≡ none
unfolding cut_last
cut_last-none [] h = refl
cut_last-none (c ∷ s) h = rw (cut_last-none s h.1, h.0) refl

cut_last-append : (host s : List ℕ) → NoDash s → cut_last b'-' (host ++ b'-' ∷ s) ≡ some (host, s)
unfolding cut_last
cut_last-append [] s h = rw (cut_last-none s h) refl
cut_last-append (c ∷ host) s h = rw (cut_last-append host s h) refl

digit-no_dash : (d : ℕ) → d < 10 → (digit d == b'-') ≡ false
digit-no_dash d h = ground arith

format_decimal-NoDash : (n : ℕ) → NoDash (format_decimal n)
unfolding format_decimal
format_decimal-NoDash n = digits_loop-All (λ c. (c == b'-') ≡ false) digit-no_dash 20 n [] tt

format_decimal-full : (n : ℕ) → is_empty (format_decimal n) ≡ false
format_decimal-full n = let (c, s, same) = format_decimal-filled n in rw (same) refl

-- The lock that Chrome writes: a host and a pid.
abbrev pub lock : List ℕ → ℕ → List ℕ
lock host pid = host ++ b'-' ∷ format_decimal pid

positive : (pid : ℕ) → 0 < pid → pid < 2 ^ 63 → (pid == 0 || not (ltb pid (2 ^ 63))) ≡ false
positive pid low high = ground arith

parse_singleton_lock-lock :
    (host : List ℕ) (pid : ℕ)
    → is_empty host ≡ false
    → 0 < pid
    → pid < 2 ^ 63
    → parse_singleton_lock (lock host pid) ≡ some (host, pid)
unfolding parse_singleton_lock
parse_singleton_lock-lock host pid full low high =
    rw
      (
        cut_last-append host (format_decimal pid) (format_decimal-NoDash pid),
        full,
        format_decimal-full pid,
        atoi-format_decimal pid high,
        positive pid low high,
      )
      refl

in_use-live :
    (system : System) (host : List ℕ) (pid : ℕ) (here alive : Bool)
    → in_use system (if not here then none else if not alive then none else some pid)
      ≡ (if here && alive then err pid else ok tt)
in_use-live system host pid true true = refl
in_use-live system host pid true false = refl
in_use-live system host pid false alive = refl

-- A profile whose lock names a host, dashes in its name included, and a pid is refused, with that
-- pid, just when the host is this one and the process is alive.
pub check_profile_free-lock :
    (system : System) (dir host : List ℕ) (pid : ℕ)
    → is_empty dir ≡ false
    → is_empty host ≡ false
    → 0 < pid
    → pid < 2 ^ 63
    → system.read_lock dir ≡ some (lock host pid)
    → check_profile_free system dir ≡ (
        if on_this_host system host system.hostname && process_alive (system.kill pid)
        then err pid
        else ok tt)
unfolding check_profile_free profile_owner
check_profile_free-lock system dir host pid named full low high reads =
    rw (named, reads, parse_singleton_lock-lock host pid full low high)
      (in_use-live system host pid (on_this_host system host system.hostname)
        (process_alive (system.kill pid)))
