-- ===== src/Fcm/Retry/Bounds.antt =====
-- How often retryWith (pkg/googlefindmy/fcm/register.go) calls, how long it waits, what it returns.
use google_find_my_tools_go.Prelude.{
  ℕ, zero, suc, ◌+◌, ◌*◌, ◌/◌, ◌%◌, ◌^◌, ◌≤◌, ◌<◌, min, ◌≡◌, ◌≢◌, ap, ◌∙◌, arith,
}
use google_find_my_tools_go.Prelude.{
  Bool, true, false, ltb, not, ◌||◌, Bool-cases, Option-cases, inl, inr, List, [], ◌∷◌, length,
  Option, none, some, ◌==◌,
}
use mathlib.Core.Path.{subst}
use native.Mathlib.Nat.{mul_assoc, pow-suc, mod-lt}
use google_find_my_tools_go.GoErrors.{GoError}
use google_find_my_tools_go.Fcm.Retry.{
  RetryConfig, Call, Retried, returned, panicked, int64n_panics, wait_round, retry_round,
  retry_loop, retry_with, jittered, next_delay, is_transient,
}

-- The delay behind round `i`, before the jitter: doubled each round, at most the maximum.
abbrev pub delay_at : RetryConfig → ℕ → ℕ
delay_at cfg i = min (cfg.base_delay * 2 ^ i) cfg.max_delay

-- From round `i` on, each wait is at least half its delay and at most the delay.
abbrev pub Within : RetryConfig → ℕ → List ℕ → Type 0
Within cfg i [] = Unit
Within cfg i (w ∷ ws) = (delay_at cfg i / 2 ≤ w) × (w ≤ delay_at cfg i) × Within cfg (suc i) ws

-- What is left of the attempts bounds the calls; there is no wait behind the last attempt, and no
-- panic.
abbrev pub Bounded : RetryConfig → ℕ → ℕ → Retried → Type 0
Bounded cfg left i r =
    (r.calls ≤ left) × (length r.waits ≤ r.calls) × (r.result ≢ panicked) × Within cfg i r.waits

next_delay-min : (x m : ℕ) → m < 2 ^ 62 → next_delay m (min x m) ≡ min (x * 2) m
unfolding next_delay
next_delay-min x m h = ground arith

next_delay-delay_at :
    (cfg : RetryConfig) (i : ℕ)
    → cfg.max_delay < 2 ^ 62
    → next_delay cfg.max_delay (delay_at cfg i) ≡ delay_at cfg (suc i)
next_delay-delay_at cfg i h =
    next_delay-min (cfg.base_delay * 2 ^ i) cfg.max_delay h ∙ ap (λ x. min x cfg.max_delay) doubled
  where
    doubled : cfg.base_delay * 2 ^ i * 2 ≡ cfg.base_delay * 2 ^ suc i
    doubled = rw (pow-suc 2 i) (mul_assoc cfg.base_delay (2 ^ i) 2)

jittered-Within :
    (delay random : ℕ)
    → delay < 2 ^ 62
    → (delay / 2 ≤ jittered delay random) × (jittered delay random ≤ delay)
unfolding jittered
jittered-Within delay random h = rw (positive) (omega arith, omega (arith, below))
  where
    positive : ltb delay (2 ^ 63) ≡ true
    positive = ground arith

    below : random % (delay / 2 + 1) < delay / 2 + 1
    below = mod-lt random (omega arith)

never_panics : (delay : ℕ) → delay < 2 ^ 62 → int64n_panics delay ≡ false
unfolding int64n_panics
never_panics delay h = ground arith

delay_at-lt : (cfg : RetryConfig) (i : ℕ) → cfg.max_delay < 2 ^ 62 → delay_at cfg i < 2 ^ 62
delay_at-lt cfg i h = omega arith

returned≢panicked : (e : Option GoError) → returned e ≢ panicked
returned≢panicked e h = cc

module _ (cfg : RetryConfig) (left i : ℕ) (call : Call) (later : Retried)
    (small : cfg.max_delay < 2 ^ 62) where
  wait_round-Bounded :
      (w : ℕ)
      → (delay_at cfg i / 2 ≤ w) × (w ≤ delay_at cfg i)
      → (e : Option GoError) → Bounded cfg left (suc i) later
      → Bounded cfg (suc left) i (wait_round w e later)
  wait_round-Bounded w within (some e) h =
      (omega arith, omega arith, returned≢panicked (some e), (within.0, within.1, tt))
  wait_round-Bounded w within none (calls, waits, ends, rest) =
      (omega arith, omega arith, ends, (within.0, within.1, rest))

  retry_round-Bounded :
      (last : Bool) (before : Option GoError)
      → Bounded cfg left (suc i) later
      → Bounded cfg (suc left) i (retry_round last (delay_at cfg i) call later before)
  retry_round-Bounded last (some e) h = (omega arith, omega arith, returned≢panicked (some e), tt)
  retry_round-Bounded last none h = elim (Option-cases call.failure) [
    | inl done ↦ simp done (omega arith, omega arith, returned≢panicked none, tt)
    | inr (e, failed) ↦ elim (Bool-cases (not (is_transient e) || last)) [
      | inl final ↦ simp (failed, final) (omega arith, omega arith, returned≢panicked (some e), tt)
      | inr again ↦
          rw (failed, again, never_panics (delay_at cfg i) (delay_at-lt cfg i small))
            (wait_round-Bounded (jittered (delay_at cfg i) call.random)
              (jittered-Within (delay_at cfg i) call.random (delay_at-lt cfg i small))
              call.context_waiting h)
    ]
  ]

retry_loop-Bounded :
    (cfg : RetryConfig) (calls : ℕ → Call) (left i : ℕ)
    → cfg.max_delay < 2 ^ 62
    → Bounded cfg left i (retry_loop cfg.max_delay left (delay_at cfg i) calls i)
unfolding retry_loop
retry_loop-Bounded cfg calls zero i small = (omega arith, omega arith, returned≢panicked none, tt)
retry_loop-Bounded cfg calls (suc left) i small =
    retry_round-Bounded cfg left i (calls i)
      (retry_loop cfg.max_delay left (next_delay cfg.max_delay (delay_at cfg i)) calls (suc i))
      small (left == 0) (calls i).context_before
      (rw (next_delay-delay_at cfg i small) (retry_loop-Bounded cfg calls left (suc i) small))

-- With a first delay of at most the maximum, and a maximum below 2^62 nanoseconds (146 years), so
-- that no double of a delay overflows, retryWith does not panic, calls at most as often as it may,
-- waits at most once a call, and the wait behind round i (from 0) lies between half and all of the
-- delay min(baseDelay * 2^i, maxDelay).
pub retry_with-Bounded :
    (cfg : RetryConfig) (calls : ℕ → Call)
    → cfg.base_delay ≤ cfg.max_delay
    → cfg.max_delay < 2 ^ 62
    → Bounded cfg cfg.attempts 0 (retry_with cfg calls)
unfolding retry_with
retry_with-Bounded cfg calls ordered small =
    subst (λ d. Bounded cfg cfg.attempts 0 (retry_loop cfg.max_delay cfg.attempts d calls 0)) first
      (retry_loop-Bounded cfg calls cfg.attempts 0 small)
  where
    first : delay_at cfg 0 ≡ cfg.base_delay
    first = ground arith
