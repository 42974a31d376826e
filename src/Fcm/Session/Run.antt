-- ===== src/Fcm/Session/Run.antt =====
-- Connect and Run of MCSClient (pkg/googlefindmy/fcm/push.go). What the network and the context
-- do is given, attempt by attempt, as an argument.
use google_find_my_tools_go.Prelude.{ℕ, ◌*◌, Bool, true, false, List, [], ◌∷◌, ◌++◌}
use google_find_my_tools_go.Prelude.{Option, none, some, Result, ok, err, if◌then◌else◌, ltb}
use google_find_my_tools_go.GoErrors.{GoError, message, wrapped}
use google_find_my_tools_go.Bytes.{codes}
use google_find_my_tools_go.Decimal.{format_decimal, format_hex, format_int64}
use google_find_my_tools_go.Fcm.Message.{Message, Codec, LoginRequest}
use google_find_my_tools_go.Fcm.PushCrypto.{Primitives, FcmCredentials, GcmCredentials}
use google_find_my_tools_go.Fcm.Client.{Client, Conn, Done, send_msg, read_msg}
use google_find_my_tools_go.Fcm.Session.{closed, Tick, Listening, running, returned, listen}

-- What the network does for Connect: the dialled connection or an error, the errors of the TLS
-- handshake and of SetReadDeadline, and the error of the parent context if it is done.
pub record Dial : Type 0 where
  pub connection : Result GoError Conn
  pub handshake_error : Option GoError
  pub deadline_error : Option GoError
  pub parent_error : Option GoError

unfoldable pub login_request : GcmCredentials → List (List ℕ) → LoginRequest
login_request gcm received = record {
  auth_token = format_decimal gcm.security_token;
  device_id = codes "android-" ++ format_hex gcm.android_id;
  user = format_int64 gcm.android_id;
  resource = format_int64 gcm.android_id;
  received_persistent_id = received;
}

abbrev pub fail_closed : GoError → Client → Done (Unit {0})
fail_closed e c = (err e, closed c)

abbrev pub login_answer : Done Message → Done (Unit {0})
login_answer (ok Message.login_response, c) = (ok tt, c)
login_answer (ok m, c) = fail_closed (message "mcs: expected LoginResponse") c
login_answer (err e, c) = fail_closed (wrapped "mcs read login response" e) c

abbrev pub await_login : Codec → Done (Unit {0}) → Done (Unit {0})
await_login codec (ok _, c) = login_answer (read_msg codec c)
await_login codec (err e, c) = fail_closed (wrapped "mcs send login" e) c

abbrev pub log_in : Codec → GcmCredentials → Client → Option GoError → Done (Unit {0})
log_in codec gcm c (some e) = fail_closed (wrapped "mcs set read deadline" e) c
log_in codec gcm c none =
    await_login codec
      (send_msg codec c (Message.login_request (login_request gcm c.received_persistent_ids)))

abbrev pub shake_hands :
    Codec → GcmCredentials → Client → Dial → Result GoError Conn → Done (Unit {0})
shake_hands codec gcm c dial (err e) = (err (wrapped "mcs dial" e), c)
shake_hands codec gcm c dial (ok conn) = elim dial.handshake_error [
  | some e ↦ (err (wrapped "mcs tls" e), c)
  | none ↦ log_in codec gcm (record c { conn = some conn }) dial.deadline_error
]

abbrev already_done : Option GoError → Bool
already_done none = false
already_done (some e) = true

abbrev pub gcm_of : Option FcmCredentials → Option GcmCredentials
gcm_of none = none
gcm_of (some creds) = creds.gcm

unfoldable pub connect : Codec → Client → Dial → Done (Unit {0})
connect codec c dial = elim (gcm_of c.creds) [
  | none ↦ (err (message "mcs: missing FCM GCM credentials"), c)
  | some gcm ↦
      shake_hands codec gcm
        (record c {
          ctx = some (already_done dial.parent_error);
          has_cancel = true;
          first_message = true;
        })
        dial dial.connection
]

-- One attempt of Run: what Connect meets, the rounds of Listen (enough of them for it to return),
-- and the error of the context, if it is done, behind Connect or Listen and during the wait.
pub record Attempt : Type 0 where
  pub dial : Dial
  pub ticks : List Tick
  pub error_behind : Option GoError
  pub error_waiting : Option GoError

abbrev pub listened : Listening → Client
listened (running c) = c
listened (returned e c) = c

-- Run leaves its loop with an error of the context, or waits before the next attempt.
abbrev pub listen_if : Codec → Primitives → Attempt → Done (Unit {0}) → Client × Option GoError
listen_if codec prims a (err e, c) = (c, a.error_behind)
listen_if codec prims a (ok _, c) = (listened (listen codec prims a.ticks c), none)

abbrev pub attempt_once : Codec → Primitives → Client → Attempt → Client × Option GoError
attempt_once codec prims c a = listen_if codec prims a (connect codec c a.dial)

-- backoff *= 2, at most 30 seconds
unfoldable pub next_backoff : ℕ → ℕ
next_backoff b = if ltb 30 (b * 2) then 30 else b * 2

-- The select behind an attempt: Run returns an error, or waits and goes on.
abbrev pub wait_or_leave :
    ℕ → Option GoError → Option GoError → List ℕ × Option GoError → List ℕ × Option GoError
wait_or_leave backoff (some e) waiting later = ([], some e)
wait_or_leave backoff none (some e) later = (backoff ∷ [], some e)
wait_or_leave backoff none none (waits, e) = (backoff ∷ waits, e)

-- The waits of Run, in seconds, and the error it has returned, if it has.
unfoldable pub run_loop : Codec → Primitives → List Attempt → ℕ → Client → List ℕ × Option GoError
run_loop codec prims [] backoff c = ([], none)
run_loop codec prims (a ∷ as') backoff c =
    let (c', failed) = attempt_once codec prims c a in
    wait_or_leave backoff failed a.error_waiting
      (run_loop codec prims as' (next_backoff backoff) c')

unfoldable pub run : Codec → Primitives → List Attempt → Client → List ℕ × Option GoError
unfolding run_loop
run codec prims attempts c = run_loop codec prims attempts 1 c
