-- ===== src/Fcm/Session/Backoff.antt =====
-- The waits of Run of MCSClient (pkg/googlefindmy/fcm/push.go).
use google_find_my_tools_go.Prelude.{ℕ, zero, suc, ◌^◌, min, ◌≡◌, refl, ap, ap₂, ◌∙◌, arith, All}
use google_find_my_tools_go.Prelude.{List, [], ◌∷◌, length, Option, none, some, ok, err}
use google_find_my_tools_go.GoErrors.{GoError}
use google_find_my_tools_go.Fcm.Message.{Codec}
use google_find_my_tools_go.Fcm.PushCrypto.{Primitives}
use google_find_my_tools_go.Fcm.Client.{Client, Done}
use google_find_my_tools_go.Fcm.Session.Run.{
  Attempt, next_backoff, attempt_once, wait_or_leave, listen_if, connect, run_loop, run,
}

-- The wait behind attempt number `i`, counted from 0: twice the last one, at most 30 seconds.
abbrev pub wait : ℕ → ℕ
wait i = min (2 ^ i) 30

-- The waits behind `n` attempts, from attempt `i` on.
abbrev pub schedule : ℕ → ℕ → List ℕ
schedule i zero = []
schedule i (suc n) = wait i ∷ schedule (suc i) n

next_backoff-wait : (i : ℕ) → next_backoff (wait i) ≡ wait (suc i)
unfolding next_backoff
next_backoff-wait i = ground arith

wait_or_leave-schedule :
    (i : ℕ) (failed waiting : Option GoError) (later : List ℕ × Option GoError)
    → later.0 ≡ schedule (suc i) (length later.0)
    → (wait_or_leave (wait i) failed waiting later).0
      ≡ schedule i (length (wait_or_leave (wait i) failed waiting later).0)
wait_or_leave-schedule i (some e) waiting later h = refl
wait_or_leave-schedule i none (some e) later h = refl
wait_or_leave-schedule i none none later h = ap (λ t. wait i ∷ t) h

run_loop-schedule :
    (codec : Codec) (prims : Primitives) (as' : List Attempt) (i : ℕ) (c : Client)
    → (run_loop codec prims as' (wait i) c).0
      ≡ schedule i (length (run_loop codec prims as' (wait i) c).0)
unfolding run_loop
run_loop-schedule codec prims [] i c = refl
run_loop-schedule codec prims (a ∷ as') i c =
    let c' = (attempt_once codec prims c a).0 in
    wait_or_leave-schedule i (attempt_once codec prims c a).1 a.error_waiting
      (run_loop codec prims as' (next_backoff (wait i)) c')
      (rw (next_backoff-wait i) (run_loop-schedule codec prims as' (suc i) c'))

-- Whatever the network and the context do, the wait behind the i-th attempt of Run (from 0) is the
-- smaller of 2^i and 30 seconds: it is not reset by a connection that worked.
pub run-schedule :
    (codec : Codec) (prims : Primitives) (attempts : List Attempt) (c : Client)
    → (run codec prims attempts c).0 ≡ schedule 0 (length (run codec prims attempts c).0)
unfolding run
run-schedule codec prims attempts c = run_loop-schedule codec prims attempts 0 c

-- An attempt during which the context of Run is not cancelled.
abbrev pub Uncancelled : Attempt → Type 0
Uncancelled a = (a.error_behind ≡ none) × (a.error_waiting ≡ none)

listen_if-goes_on :
    (codec : Codec) (prims : Primitives) (a : Attempt) (r : Done (Unit {0}))
    → a.error_behind ≡ none
    → (listen_if codec prims a r).1 ≡ none
listen_if-goes_on codec prims a (ok _, c) h = refl
listen_if-goes_on codec prims a (err e, c) h = h

run_loop-goes_on :
    (codec : Codec) (prims : Primitives) (as' : List Attempt) (b : ℕ) (c : Client)
    → All Uncancelled as'
    → ((run_loop codec prims as' b c).1 ≡ none)
      × (length (run_loop codec prims as' b c).0 ≡ length as')
unfolding run_loop
run_loop-goes_on codec prims [] b c h = (refl, refl)
run_loop-goes_on codec prims (a ∷ as') b c ((behind, waiting), later) =
    let r = connect codec c a.dial in
    let rest =
      run_loop-goes_on codec prims as' (next_backoff b) (listen_if codec prims a r).0 later in
    simp (listen_if-goes_on codec prims a r behind, waiting) (rest.0, ap suc rest.1)

-- As long as its context is not cancelled, Run does not return: whatever Connect and Listen meet,
-- every attempt is followed by one wait, of 1, 2, 4, 8, 16 and then 30 seconds each.
pub run-Uncancelled :
    (codec : Codec) (prims : Primitives) (attempts : List Attempt) (c : Client)
    → All Uncancelled attempts
    → run codec prims attempts c ≡ (schedule 0 (length attempts), none)
unfolding run
run-Uncancelled codec prims attempts c h =
    let (goes_on, count) = run_loop-goes_on codec prims attempts 1 c h in
    ap₂ (λ waits e. (waits, e)) (run_loop-schedule codec prims attempts 0 c ∙ ap (schedule 0) count)
      goes_on
