-- ===== src/Fcm/Session/Tests.antt =====
-- The theorems of Connect, Listen, Run and Close at concrete connections.
use mathlib.Core.List.{mem-cons_self}
use google_find_my_tools_go.Prelude.{ℕ, ◌≡◌, refl, true, false, ◌==◌, if◌then◌else◌}
use google_find_my_tools_go.Prelude.{some, none, Result, ok, err, List, [], ◌∷◌}
use google_find_my_tools_go.GoErrors.{GoError, message, wrapped, net, eof}
use google_find_my_tools_go.Stream.{Stream, octets, fault, read_full}
use google_find_my_tools_go.Fcm.Message.{Message, Codec}
use google_find_my_tools_go.Fcm.PushCrypto.{Primitives}
use google_find_my_tools_go.Fcm.PushCrypto.{FcmCredentials, GcmCredentials}
use google_find_my_tools_go.Fcm.Client.{Client, Conn, read_frame, read_tag, read_msg}
use google_find_my_tools_go.Fcm.Session.{stop, listen_round, listen}
use google_find_my_tools_go.Fcm.Session.Run.{Dial, Attempt, connect, run}
use google_find_my_tools_go.Fcm.Session.Timeout.{quiet, listen_round_read_error}
use google_find_my_tools_go.Fcm.Session.Acks.{Reported, client_behind, listen-Reported}
use google_find_my_tools_go.Fcm.Session.Backoff.{run-Uncancelled}
use google_find_my_tools_go.Fcm.Session.Closing.{EndsClosed, listen-EndsClosed}
use google_find_my_tools_go.Fcm.Session.Login.{Outcome, connect-Outcome}

abbrev no_message : GoError
no_message = message "no message"

-- Marshalling that tells the messages apart by their tag alone.
abbrev marshal_tag : Message → Result GoError (List ℕ)
marshal_tag (Message.login_request r) = ok (1 ∷ 2 ∷ [])
marshal_tag (Message.iq_stanza q) = ok q.extension_data
marshal_tag m = ok []

abbrev codec : Codec
codec = record {
  marshal = marshal_tag;
  unmarshal = λ tag payload.
      if tag == 0
      then ok Message.heartbeat_ping
      else if tag == 3
      then ok Message.login_response
      else err no_message;
  marshal_selective_ack = λ id. ok id;
}

abbrev refusing : Primitives
refusing = record {
  base64_url = λ s. err no_message;
  base64_raw_url = λ s. err no_message;
  parse_pkcs8 = λ der. err no_message;
  to_ecdh = λ k. ok k;
  public_key = λ k. k;
  p256_public = λ k. ok k;
  ecdh = λ k p. ok k;
  hkdf_extract = λ secret salt. secret;
  hkdf_expand = λ prk info n. err no_message;
  new_gcm = λ k. ok tt;
  gcm_open = λ k nonce raw. err no_message;
}

abbrev gcm : GcmCredentials
gcm = record { app_id = []; android_id = 10; security_token = 20 }

abbrev creds : FcmCredentials
creds = record { keys = none; gcm = some gcm }

abbrev conn_with : Stream → Conn
conn_with incoming = record { incoming = incoming; writes = []; outgoing = []; close_error = none }

-- A client that has logged in and delivered one push.
abbrev client_with : Stream → Client
client_with incoming = record {
  creds = some creds;
  has_handler = true;
  conn = some (conn_with incoming);
  ctx = some false;
  has_cancel = true;
  first_message = false;
  received_persistent_ids = (7 ∷ []) ∷ [];
  crypto = none;
  delivered = (42 ∷ [], 7 ∷ []) ∷ [];
}

-- A read deadline that passes before the tag of a message: Listen ends and sends no heartbeat.
abbrev silent : Client
silent = client_with (fault (net true) ∷ [])

abbrev read_deadline : GoError
read_deadline = wrapped "mcs read tag" (net true)

silent_read : (read_msg codec silent).0 ≡ err read_deadline
unfolding read_msg read_frame read_tag read_full
silent_read = refl

listen_round_read_error_example :
    listen_round codec refusing silent quiet
    ≡ stop (wrapped "mcs read" read_deadline) (read_msg codec silent).1
listen_round_read_error_example =
    listen_round_read_error codec refusing silent (conn_with (fault (net true) ∷ [])) read_deadline
      refl refl silent_read

-- A ping, then the end of the stream.
abbrev pinged : Client
pinged = client_with (octets (0 ∷ 0 ∷ []))

listen-Reported_example :
    Reported (client_behind (listen codec refusing (quiet ∷ quiet ∷ []) pinged))
listen-Reported_example =
    listen-Reported codec refusing (quiet ∷ quiet ∷ []) pinged (mem-cons_self, tt)

listen-EndsClosed_example : EndsClosed (listen codec refusing (quiet ∷ quiet ∷ []) pinged)
listen-EndsClosed_example = listen-EndsClosed codec refusing (quiet ∷ quiet ∷ []) pinged

abbrev dial_with : Result GoError Conn → Dial
dial_with connection = record {
  connection = connection;
  handshake_error = none;
  deadline_error = none;
  parent_error = none;
}

abbrev answering : Conn
answering = conn_with (octets (41 ∷ 3 ∷ 0 ∷ []))

connect-Outcome_example :
    Outcome codec gcm ((7 ∷ []) ∷ []) answering (connect codec pinged (dial_with (ok answering)))
connect-Outcome_example =
    connect-Outcome codec pinged (dial_with (ok answering)) creds gcm answering refl refl refl refl

-- The dial fails, or the login works and the connection is lost in the first round of Listen.
abbrev attempt_with : Result GoError Conn → Attempt
attempt_with connection = record {
  dial = dial_with connection;
  ticks = quiet ∷ [];
  error_behind = none;
  error_waiting = none;
}

abbrev attempts : List Attempt
attempts = attempt_with (err eof) ∷ attempt_with (ok answering) ∷ []

run-Uncancelled_example : run codec refusing attempts silent ≡ (1 ∷ 2 ∷ [], none)
run-Uncancelled_example =
    run-Uncancelled codec refusing attempts silent ((refl, refl), ((refl, refl), tt))
