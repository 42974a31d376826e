-- ===== src/Fcm/Retry/Tests.antt =====
-- The theorems of retryWith at a call that fails once and then succeeds.
use google_find_my_tools_go.Prelude.{ℕ, ◌^◌, ◌*◌, ◌-◌, ◌≡◌, zero, suc, refl, arith, some, none}
use google_find_my_tools_go.GoErrors.{http_status, wrapped}
use google_find_my_tools_go.Fcm.Retry.{
  Call, Retried, fcm_retry, retry_with, retry_loop, panicked, is_transient, is_context_error,
  as_transient, as_http_status, status_transient, int64n_panics, next_delay, jittered,
}
use google_find_my_tools_go.Fcm.Retry.Bounds.{Bounded, retry_with-Bounded}
use google_find_my_tools_go.Fcm.Retry.Outcome.{Ends, InRange, retry_with-Ends}

abbrev failing : Call
failing = record {
  context_before = none;
  failure = some (wrapped "checkin" (http_status 503));
  random = 7;
  context_waiting = none;
}

abbrev working : Call
working = record { context_before = none; failure = none; random = 0; context_waiting = none }

abbrev second_time : ℕ → Call
second_time zero = failing
second_time (suc i) = working

retry_with-Bounded_example : Bounded fcm_retry 8 0 (retry_with fcm_retry second_time)
retry_with-Bounded_example = retry_with-Bounded fcm_retry second_time (omega arith) (omega arith)

retry_with-Ends_example :
    Ends (InRange (10 ^ 9) (30 * 10 ^ 9)) second_time 7 0 (retry_with fcm_retry second_time)
retry_with-Ends_example = retry_with-Ends fcm_retry second_time 7 refl

-- A first delay of 2^62 nanoseconds doubles to a negative one, and the second wait panics.
abbrev always_failing : ℕ → Call
always_failing i = failing

abbrev wrapped_run : Retried
wrapped_run =
    retry_with (record { attempts = 3; base_delay = 2 ^ 62; max_delay = 2 ^ 63 - 1 }) always_failing

overflows : wrapped_run.result ≡ panicked
unfolding retry_with retry_loop is_transient is_context_error as_transient as_http_status
    status_transient int64n_panics next_delay jittered
overflows = refl
