-- ===== src/Fcm/Retry/Outcome.antt =====
-- What retryWith (pkg/googlefindmy/fcm/register.go) returns, and when it stops.
use google_find_my_tools_go.Prelude.{ℕ, zero, suc, ◌+◌, ◌^◌, ◌<◌, ◌≡◌, refl, arith}
use google_find_my_tools_go.Prelude.{
  Bool, true, false, Bool-cases, ◌⊎◌, inl, inr, Option, none, some, ◌==◌,
}
use google_find_my_tools_go.GoErrors.{GoError}
use google_find_my_tools_go.Fcm.Retry.{
  RetryConfig, Call, Retried, returned, panicked, delayed, int64n_panics, jittered, after_wait,
  wait_round, after_call, retry_round, retry_loop, retry_with, next_delay, is_transient,
}

-- The delays of a configuration are below 2 ^ 62, so that the double of one is an int64.
abbrev pub InRange : ℕ → ℕ → Type 0
InRange base_delay max_delay = (base_delay < 2 ^ 62) × (max_delay < 2 ^ 62)

-- How retryWith ends, from round `i` on, when round `last` is the last one that the budget allows:
-- the call of round `k` decides, or the context is done in round `k`, or the random number of a wait
-- panics, which it does only if the delays are out of range.
pub data Ends (in_range : Type 0) (calls : ℕ → Call) (last i : ℕ) (r : Retried) : Type 0 where
  succeeded :
      (k : ℕ)
      → i + r.calls ≡ suc k
      → (calls k).failure ≡ none
      → r.result ≡ returned none
      → Ends in_range calls last i r
  gave_up :
      (k : ℕ) (e : GoError)
      → i + r.calls ≡ suc k
      → (calls k).failure ≡ some e
      → (is_transient e ≡ false) ⊎ (k ≡ last)
      → r.result ≡ returned (some e)
      → Ends in_range calls last i r
  cancelled :
      (k : ℕ) (e : GoError)
      → ((calls k).context_before ≡ some e) ⊎ ((calls k).context_waiting ≡ some e)
      → r.result ≡ returned (some e)
      → Ends in_range calls last i r
  overflowed : (in_range → ⊥) → r.result ≡ panicked → Ends in_range calls last i r

pub out_of_range : (delay : ℕ) → int64n_panics delay ≡ true → delay < 2 ^ 62 → ⊥
unfolding int64n_panics
out_of_range delay panics lt = ground arith

module _ (in_range : Type 0) (calls : ℕ → Call) (last i delay : ℕ) (later : Retried)
    (small : in_range → delay < 2 ^ 62) where
  after_wait-Ends :
      (w : ℕ)
      → Ends in_range calls last (suc i) later
      → Ends in_range calls last i (after_wait w later)
  after_wait-Ends w (succeeded k count good result) = succeeded k (omega arith) good result
  after_wait-Ends w (gave_up k e count failed why result) =
      gave_up k e (omega arith) failed why result
  after_wait-Ends w (cancelled k e done result) = cancelled k e done result
  after_wait-Ends w (overflowed big result) = overflowed big result

  wait_round-Ends :
      (w : ℕ) (waiting : Option GoError)
      → (calls i).context_waiting ≡ waiting
      → Ends in_range calls last (suc i) later
      → Ends in_range calls last i (wait_round w waiting later)
  wait_round-Ends w (some e) at h = cancelled i e (inr at) refl
  wait_round-Ends w none at h = after_wait-Ends w h

  delayed-Ends :
      Ends in_range calls last (suc i) later
      → Ends in_range calls last i (delayed delay (calls i) later)
  delayed-Ends h = elim (Bool-cases (int64n_panics delay)) [
    | inl panics ↦ rw panics (overflowed (λ r. out_of_range delay panics (small r)) refl)
    | inr fine ↦
        rw fine (wait_round-Ends (jittered delay (calls i).random) (calls i).context_waiting refl h)
  ]

  after_call-Ends :
      (final : Bool) (failure : Option GoError)
      → (calls i).failure ≡ failure
      → (final ≡ true → i ≡ last)
      → (final ≡ false → Ends in_range calls last (suc i) later)
      → Ends in_range calls last i (after_call final delay (calls i) later failure)
  after_call-Ends final none called at_last goes_on = succeeded i (omega arith) called refl
  after_call-Ends final (some e) called at_last goes_on = elim (Bool-cases (is_transient e)) [
    | inr permanent ↦ simp permanent (gave_up i e (omega arith) called (inl permanent) refl)
    | inl again ↦ elim (Bool-cases final) [
      | inl spent ↦
          simp (again, spent) (gave_up i e (omega arith) called (inr (at_last spent)) refl)
      | inr left ↦ simp (again, left) (delayed-Ends (goes_on left))
    ]
  ]

  retry_round-Ends :
      (final : Bool) (before : Option GoError)
      → (calls i).context_before ≡ before
      → (final ≡ true → i ≡ last)
      → (final ≡ false → Ends in_range calls last (suc i) later)
      → Ends in_range calls last i (retry_round final delay (calls i) later before)
  retry_round-Ends final (some e) at at_last goes_on = cancelled i e (inl at) refl
  retry_round-Ends final none at at_last goes_on =
      after_call-Ends final (calls i).failure refl at_last goes_on

next_delay-lt :
    (max_delay delay : ℕ)
    → max_delay < 2 ^ 62
    → delay < 2 ^ 62
    → next_delay max_delay delay < 2 ^ 62
unfolding next_delay
next_delay-lt max_delay delay hm hd = ground arith

retry_loop-Ends :
    (in_range : Type 0) (calls : ℕ → Call) (max_delay left delay i last : ℕ)
    → (in_range → max_delay < 2 ^ 62)
    → (in_range → delay < 2 ^ 62)
    → i + left ≡ last
    → Ends in_range calls last i (retry_loop max_delay (suc left) delay calls i)
unfolding retry_loop
retry_loop-Ends in_range calls max_delay zero delay i last hm hd h =
    retry_round-Ends in_range calls last i delay _ hd (0 == 0) (calls i).context_before refl
      (λ _. omega arith) (λ never. ground arith)
retry_loop-Ends in_range calls max_delay (suc left) delay i last hm hd h =
    retry_round-Ends in_range calls last i delay _ hd (suc left == 0) (calls i).context_before refl
      (λ never. ground arith)
      (λ _.
        retry_loop-Ends in_range calls max_delay left (next_delay max_delay delay) (suc i) last hm
          (λ r. next_delay-lt max_delay delay (hm r) (hd r)) (omega arith))

-- With at least one attempt, retryWith returns nil if the last call it made succeeded, the error of
-- the last call if that is not transient or the attempts are used up, or an error of the context; or
-- it panics, but only if the first delay or the maximum is 2^62 nanoseconds or more.
pub retry_with-Ends :
    (cfg : RetryConfig) (calls : ℕ → Call) (last : ℕ)
    → cfg.attempts ≡ suc last
    → Ends (InRange cfg.base_delay cfg.max_delay) calls last 0 (retry_with cfg calls)
unfolding retry_with
retry_with-Ends cfg calls last some_attempt = rw some_attempt (
    retry_loop-Ends (InRange cfg.base_delay cfg.max_delay) calls cfg.max_delay last cfg.base_delay 0
      last (λ r. r.1) (λ r. r.0) (omega arith))
