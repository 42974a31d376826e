-- ===== src/Fcm/Register/Retried.antt =====
-- The loop around a function with a value: what it returns, and that it is retryWith.
use google_find_my_tools_go.Prelude.{
  ℕ, zero, suc, Bool, true, false, not, ◌||◌, Option, none, some, if◌then◌else◌, Result, ok, err,
}
use google_find_my_tools_go.GoErrors.{GoError}
use google_find_my_tools_go.Actions.{Action}
use google_find_my_tools_go.Actions.Always.{OkIs, Always}
use google_find_my_tools_go.Fcm.Retry.{fcm_retry, is_transient, jittered}
use google_find_my_tools_go.Fcm.Register.Gcm.{
  Outside, waited, jittered_wait, called, attempt, retry_loop, retry,
}

module _ {ℓ κ μ} {S : Type ℓ} {A : Type κ} (outside : Outside S) (f : Action S GoError A)
    (P : A → Type μ) where
  waited-OkIs :
      (r : S × Option GoError) (later : Action S GoError A)
      → Always P later
      → OkIs P (waited outside f r later).1
  waited-OkIs (s, some e) later h = tt
  waited-OkIs (s, none) later h = h s

  jittered_wait-OkIs :
      (delay : ℕ) (r : S × ℕ) (later : Action S GoError A)
      → Always P later
      → OkIs P (jittered_wait outside f delay r later).1
  jittered_wait-OkIs delay (s, n) later h = waited-OkIs (outside.wait (jittered delay n) s) later h

  if-OkIs :
      (t : Bool) (r r' : S × Result GoError A)
      → OkIs P r.1
      → OkIs P r'.1
      → OkIs P (if t then r else r').1
  if-OkIs true r r' h k = h
  if-OkIs false r r' h k = k

  called-OkIs :
      (last : Bool) (delay : ℕ) (r : S × Result GoError A) (later : Action S GoError A)
      → OkIs P r.1
      → Always P later
      → OkIs P (called outside f last delay r later).1
  called-OkIs last delay (s, ok a) later h k = h
  called-OkIs last delay (s, err e) later h k =
      if-OkIs (not (is_transient e) || last) (s, err e) _ tt
        (jittered_wait-OkIs delay (outside.random s) later k)

  attempt-OkIs :
      (last : Bool) (delay : ℕ) (r : S × Option GoError) (later : Action S GoError A)
      → Always P f
      → Always P later
      → OkIs P (attempt outside f last delay r later).1
  attempt-OkIs last delay (s, some e) later h k = tt
  attempt-OkIs last delay (s, none) later h k = called-OkIs last delay (f s) later (h s) k

  retry_loop-Always :
      (max_delay more delay : ℕ) → Always P f → Always P (retry_loop outside f max_delay more delay)
  unfolding retry_loop
  retry_loop-Always max_delay zero delay h s =
      attempt-OkIs true delay (outside.context_error s) _ h (λ s'. tt)
  retry_loop-Always max_delay (suc more) delay h s =
      attempt-OkIs false delay (outside.context_error s) _ h (retry_loop-Always max_delay more _ h)

  -- What holds of every value of the function holds of the value of the loop.
  pub retry-Always : Always P f → Always P (retry outside f)
  unfolding retry
  retry-Always h = retry_loop-Always fcm_retry.max_delay 7 fcm_retry.base_delay h
