-- ===== src/Fcm/Retry.antt =====
-- isTransient and retryWith of pkg/googlefindmy/fcm/register.go.
use google_find_my_tools_go.Prelude.{
  ℕ, zero, suc, ◌+◌, ◌*◌, ◌/◌, ◌%◌, ◌^◌, ◌-◌, Bool, true, false, not, ◌&&◌, ◌||◌,
}
use google_find_my_tools_go.Prelude.{
  List, [], ◌∷◌, Option, none, some, ltb, leb, ◌==◌, if◌then◌else◌,
}
use google_find_my_tools_go.GoErrors.{
  GoError, eof, unexpected_eof, canceled, deadline_exceeded, net,
}
use google_find_my_tools_go.GoErrors.{message, wrapped, http_status, transient}
pub mod Bounds
pub mod Outcome
mod Tests

-- errors.Is(err, context.Canceled) || errors.Is(err, context.DeadlineExceeded)
unfoldable pub is_context_error : GoError → Bool
is_context_error canceled = true
is_context_error deadline_exceeded = true
is_context_error (wrapped s e) = is_context_error e
is_context_error (transient e) = is_context_error e
is_context_error e = false

-- errors.As(err, &te) for a transientError
unfoldable pub as_transient : GoError → Bool
as_transient (transient e) = true
as_transient (wrapped s e) = as_transient e
as_transient e = false

-- errors.As(err, &he) for a *httpStatusError: its status
unfoldable pub as_http_status : GoError → Option ℕ
as_http_status (http_status n) = some n
as_http_status (wrapped s e) = as_http_status e
as_http_status (transient e) = as_http_status e
as_http_status e = none

-- errors.As(err, &ne) for a net.Error
unfoldable pub as_net : GoError → Bool
as_net deadline_exceeded = true
as_net (net timed_out) = true
as_net (wrapped s e) = as_net e
as_net (transient e) = as_net e
as_net e = false

-- httpStatusError.transient
unfoldable pub status_transient : ℕ → Bool
status_transient n = n == 429 || leb 500 n

abbrev pub status_or_net : Option ℕ → GoError → Bool
status_or_net (some n) e = status_transient n
status_or_net none e = as_net e

-- isTransient of an error that is not nil
unfoldable pub is_transient : GoError → Bool
unfolding is_context_error as_transient as_http_status as_net status_transient
is_transient e =
    if is_context_error e
    then false
    else if as_transient e
    then true
    else status_or_net (as_http_status e) e

-- Durations in nanoseconds, which are int64: the patterns of 64 bits, from 2 ^ 63 on negative.
pub record RetryConfig : Type 0 where
  pub attempts : ℕ
  pub base_delay : ℕ
  pub max_delay : ℕ

abbrev pub fcm_retry : RetryConfig
fcm_retry = record { attempts = 8; base_delay = 10 ^ 9; max_delay = 30 * 10 ^ 9 }

-- What a round of the loop meets: the error of the context before the call, the result of the call
-- (nil is `none`), the random number behind Int64N, the error of the context during the wait.
pub record Call : Type 0 where
  pub context_before : Option GoError
  pub failure : Option GoError
  pub random : ℕ
  pub context_waiting : Option GoError

-- The error that is returned, nil being `none`, or a panic of Int64N.
pub data End : Type 0 where
  returned : Option GoError → End
  panicked : End

-- The calls of fn so far, the waits and how it ends.
pub record Retried : Type 0 where
  pub calls : ℕ
  pub waits : List ℕ
  pub result : End

abbrev pub ended : ℕ → Option GoError → Retried
ended n e = record { calls = n; waits = []; result = returned e }

-- A round goes on with a call and a wait behind it.
abbrev pub after_wait : ℕ → Retried → Retried
after_wait wait r = record { calls = suc r.calls; waits = wait ∷ r.waits; result = r.result }

-- delay/2 is negative, so that delay/2 + 1 is not positive and Int64N panics: -1 / 2 is 0.
unfoldable pub int64n_panics : ℕ → Bool
int64n_panics delay = leb (2 ^ 63) delay && ltb delay (2 ^ 64 - 1)

-- delay/2, where it is not negative.
abbrev pub half : ℕ → ℕ
half delay = if ltb delay (2 ^ 63) then delay / 2 else 0

-- delay/2 + Int64N(delay/2 + 1), where that does not panic.
unfoldable pub jittered : ℕ → ℕ → ℕ
jittered delay random = half delay + random % (half delay + 1)

-- x < y of two int64.
abbrev pub int64_less : ℕ → ℕ → Bool
int64_less x y = ltb ((x + 2 ^ 63) % 2 ^ 64) ((y + 2 ^ 63) % 2 ^ 64)

-- delay *= 2, which wraps around, at most maxDelay
unfoldable pub next_delay : ℕ → ℕ → ℕ
next_delay max_delay delay =
    let doubled = delay * 2 % 2 ^ 64 in if int64_less max_delay doubled then max_delay else doubled

-- The select of a round, on the error of the context.
abbrev pub wait_round : ℕ → Option GoError → Retried → Retried
wait_round wait (some e) later = record { calls = 1; waits = wait ∷ []; result = returned (some e) }
wait_round wait none later = after_wait wait later

-- The wait behind a call, under a delay.
abbrev pub delayed : ℕ → Call → Retried → Retried
delayed delay call later =
    if int64n_panics delay
    then record { calls = 1; waits = []; result = panicked }
    else wait_round (jittered delay call.random) call.context_waiting later

-- What follows a call. `last` says that no attempt is left.
abbrev pub after_call : Bool → ℕ → Call → Retried → Option GoError → Retried
after_call last delay call later none = ended 1 none
after_call last delay call later (some e) =
    if not (is_transient e) || last then ended 1 (some e) else delayed delay call later

abbrev pub retry_round : Bool → ℕ → Call → Retried → Option GoError → Retried
retry_round last delay call later (some e) = ended 0 (some e)
retry_round last delay call later none = after_call last delay call later call.failure

-- The loop with `left` attempts left, over a sequence of what the rounds meet.
unfoldable pub retry_loop : ℕ → ℕ → ℕ → (ℕ → Call) → ℕ → Retried
unfolding int64n_panics jittered next_delay is_transient
retry_loop max_delay zero delay calls i = ended 0 none
retry_loop max_delay (suc left) delay calls i =
    retry_round (left == 0) delay (calls i)
      (retry_loop max_delay left (next_delay max_delay delay) calls (suc i))
      (calls i).context_before

unfoldable pub retry_with : RetryConfig → (ℕ → Call) → Retried
unfolding retry_loop
retry_with cfg calls = retry_loop cfg.max_delay cfg.attempts cfg.base_delay calls 0
