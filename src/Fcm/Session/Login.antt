-- ===== src/Fcm/Session/Login.antt =====
-- Connect of MCSClient (pkg/googlefindmy/fcm/push.go): what it writes and how it leaves the client.
use google_find_my_tools_go.Prelude.{ℕ, Bool, true, false, ◌≡◌, refl, Option, none, some, inl, inr}
use google_find_my_tools_go.Prelude.{List, Result-cases, ◌++◌, Result, ok, err}
use google_find_my_tools_go.GoErrors.{GoError}
use google_find_my_tools_go.Fcm.Message.{Message, Codec, LoginRequest, tag_by_name}
use google_find_my_tools_go.Fcm.PushCrypto.{FcmCredentials, GcmCredentials}
use google_find_my_tools_go.Fcm.Client.{
  Client, Conn, Done, WriteCall, send_msg, read_msg, frame_of, write_loop,
}
use google_find_my_tools_go.Fcm.Session.Run.{Dial}
use google_find_my_tools_go.Fcm.Session.Run.{
  connect, log_in, await_login, login_answer, login_request,
}
use google_find_my_tools_go.Fcm.Client.Wire.{write_loop_whole}
use google_find_my_tools_go.Fcm.Session.Closing.{Closed, close-Closed}

-- The client has written the frame of one message, with tag 2, behind what `conn` had sent.
abbrev Wrote : Codec → Message → Bool → Conn → Client → Type 0
Wrote codec m first conn c =
    (payload : List ℕ) × ((conn' : Conn) × ((codec.marshal m ≡ ok payload)
        × ((c.conn ≡ some conn') × (conn'.outgoing ≡ conn.outgoing ++ frame_of first 2 payload))))

abbrev Sent : Codec → Message → Bool → Conn → Done (Unit {0}) → Type 0
Sent codec m first conn (err e, c) = Unit
Sent codec m first conn (ok _, c) = Wrote codec m first conn c

module _ (codec : Codec) (q : LoginRequest) (c : Client) (conn : Conn) where
  written :
      (payload : List ℕ) (w : Result GoError (Unit {0}) × List WriteCall × List ℕ)
      → codec.marshal (Message.login_request q) ≡ ok payload
      → (w.0 ≡ ok tt → w.2 ≡ conn.outgoing ++ frame_of c.first_message 2 payload)
      → Sent codec
          (Message.login_request q)
          c.first_message
          conn
          (w.0, record c { conn = some (record conn { writes = w.1; outgoing = w.2 }) })
  written payload (err e, ws, out) marshalled whole = tt
  written payload (ok tt, ws, out) marshalled whole =
      (payload, (record conn { writes = ws; outgoing = out }, (marshalled, (refl, whole refl))))

  send_msg-Sent :
      c.conn ≡ some conn
      → Sent codec
          (Message.login_request q)
          c.first_message
          conn
          (send_msg codec c (Message.login_request q))
  unfolding send_msg tag_by_name
  send_msg-Sent connected = elim (Result-cases (codec.marshal (Message.login_request q))) [
    | inl (payload, marshalled) ↦
        rw (marshalled, connected)
          (written payload
            (write_loop conn.writes (frame_of c.first_message 2 payload) conn.outgoing) marshalled
            (write_loop_whole conn.writes _ conn.outgoing))
    | inr (e, failed) ↦ rw failed tt
  ]

-- What a successful Connect leaves: a connection on which the login request was written whole, in
-- the frame of a first message, with the remembered ids; and the version byte is not sent again.
abbrev pub Outcome : Codec → GcmCredentials → List (List ℕ) → Conn → Done (Unit {0}) → Type 0
Outcome codec gcm ids conn (err e, c) = Closed c
Outcome codec gcm ids conn (ok _, c) =
    Wrote codec (Message.login_request (login_request gcm ids)) true conn c
    × (c.first_message ≡ false)

module _ (codec : Codec) (gcm : GcmCredentials) (ids : List (List ℕ)) (conn : Conn) where
  login_answer-Outcome :
      (r : Done Message)
      → Wrote codec (Message.login_request (login_request gcm ids)) true conn r.1
      → r.1.first_message ≡ false
      → Outcome codec gcm ids conn (login_answer r)
  login_answer-Outcome (ok Message.login_response, c) wrote later = (wrote, later)
  login_answer-Outcome (ok m, c) wrote later = close-Closed c
  login_answer-Outcome (err e, c) wrote later = close-Closed c

  await_login-Outcome :
      (r : Done (Unit {0}))
      → Sent codec (Message.login_request (login_request gcm ids)) true conn r
      → Outcome codec gcm ids conn (await_login codec r)
  unfolding read_msg
  await_login-Outcome (err e, c) sent = close-Closed c
  await_login-Outcome (ok _, c) (payload, (conn', (marshalled, (connected, whole)))) =
      login_answer-Outcome (read_msg codec c)
        (rw connected (payload, (_, (marshalled, (refl, whole))))) (rw connected refl)

-- The client with which Connect logs in.
abbrev dialled : Client → Option Bool → Conn → Client
dialled c done conn = record c {
  ctx = done;
  has_cancel = true;
  first_message = true;
  conn = some conn;
}

log_in-Outcome :
    (codec : Codec) (gcm : GcmCredentials) (c : Client) (done : Option Bool) (conn : Conn)
    (deadline : Option GoError)
    → Outcome codec gcm c.received_persistent_ids conn
        (log_in codec gcm (dialled c done conn) deadline)
log_in-Outcome codec gcm c done conn (some e) = close-Closed (dialled c done conn)
log_in-Outcome codec gcm c done conn none =
    await_login-Outcome codec gcm c.received_persistent_ids conn _ (
      send_msg-Sent codec (login_request gcm c.received_persistent_ids) (dialled c done conn) conn
        refl)

-- Once the connection is dialled and the handshake done, Connect either fails and leaves the
-- client closed, or it succeeds, has written the login request with the remembered ids whole, in
-- the frame of a first message, and sends no version byte from then on.
pub connect-Outcome :
    (codec : Codec) (c : Client) (dial : Dial) (creds : FcmCredentials) (gcm : GcmCredentials)
    (conn : Conn)
    → c.creds ≡ some creds
    → creds.gcm ≡ some gcm
    → dial.connection ≡ ok conn
    → dial.handshake_error ≡ none
    → Outcome codec gcm c.received_persistent_ids conn (connect codec c dial)
unfolding connect
connect-Outcome codec c dial creds gcm conn given has_gcm connected shaken =
    rw (given, has_gcm, connected, shaken)
      (log_in-Outcome codec gcm (record c { creds = some (record creds { gcm = some gcm }) }) _ conn
        dial.deadline_error)
