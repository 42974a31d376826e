-- ===== src/Fcm/Session.antt =====
-- handleDataMessage and Listen of MCSClient (pkg/googlefindmy/fcm/push.go). What the
-- network, the clock and other goroutines do is given, step by step, as an argument.
use google_find_my_tools_go.Prelude.{ℕ, ◌+◌, ◌*◌, Bool, true, false, not, ◌&&◌, List, [], ◌∷◌, ◌++◌}
use google_find_my_tools_go.Prelude.{
  Option, none, some, Result, ok, err, wrap_err, if◌then◌else◌, ltb,
}
use google_find_my_tools_go.GoErrors.{GoError, message, wrapped, canceled, as_net_error}
use google_find_my_tools_go.Bytes.{codes, is_empty}
use google_find_my_tools_go.Decimal.{format_decimal, format_hex, format_int64}
use google_find_my_tools_go.Fcm.Message
use google_find_my_tools_go.Fcm.Message.{Message, Codec, DataMessage, LoginRequest}
use google_find_my_tools_go.Fcm.PushCrypto.{Primitives, PushCrypto, FcmCredentials, GcmCredentials}
use google_find_my_tools_go.Fcm.PushCrypto.{new_push_crypto, decrypt}
use google_find_my_tools_go.Fcm.Client.{
  Client, Conn, Done, close, send_msg, read_msg, not_connected,
}
use google_find_my_tools_go.Fcm.Client.{send_selective_ack, remember_persistent_id}
pub mod Run
pub mod Timeout
pub mod Keeps
pub mod Acks
pub mod Backoff
pub mod Closing
pub mod Login
mod Tests

-- c.close() with its error dropped
abbrev pub closed : Client → Client
closed c = (close c).0

-- The method pushCrypto: the credentials are parsed once, and the result is kept.
abbrev pub parse_creds : Primitives → Option FcmCredentials → Result GoError PushCrypto
parse_creds prims none = err (message "mcs: missing credentials")
parse_creds prims (some creds) = new_push_crypto prims (some creds)

unfoldable pub push_crypto : Primitives → Client → Done PushCrypto
push_crypto prims c = elim c.crypto [
  | none ↦ let r = parse_creds prims c.creds in (r, record c { crypto = some r })
  | some r ↦ (r, c)
]

-- The handler is called with a decrypted message that has a persistent id.
abbrev pub deliver : Client → List ℕ → Result GoError (List ℕ) → Client
deliver c persistent_id (err e) = c
deliver c persistent_id (ok payload) =
    if not (is_empty persistent_id) && c.has_handler
    then record c { delivered = c.delivered ++ (payload, persistent_id) ∷ [] }
    else c

abbrev pub handle_with : Primitives → DataMessage → Done PushCrypto → Client
handle_with prims m (err e, c) = c
handle_with prims m (ok p, c) = deliver c m.persistent_id (decrypt prims p m)

unfoldable pub handle_data_message : Primitives → Client → DataMessage → List ℕ × Client
unfolding push_crypto
handle_data_message prims c m = (m.persistent_id, handle_with prims m (push_crypto prims c))

-- One round of Listen: it goes on, or Listen returns an error.
pub data Round : Type 0 where
  next : Client → Round
  stop : GoError → Client → Round

abbrev pub after_send : (GoError → GoError) → Done (Unit {0}) → Round
after_send f (ok _, c) = next c
after_send f (err e, c) = stop (f e) c

abbrev pub acknowledge : Codec → List ℕ × Client → Round
acknowledge codec (persistent_id, c) =
    if is_empty persistent_id
    then next c
    else after_send (wrapped "mcs send selective ack")
        (send_selective_ack codec (remember_persistent_id c persistent_id) persistent_id)

-- The type switch of Listen; the last case is `default`.
unfoldable pub dispatch : Codec → Primitives → Client → Message → Round
unfolding handle_data_message
dispatch codec prims c Message.heartbeat_ping =
    after_send (wrapped "mcs send heartbeat ack") (send_msg codec c Message.heartbeat_ack)
dispatch codec prims c Message.heartbeat_ack = next c
dispatch codec prims c (Message.iq_stanza q) = next c
dispatch codec prims c (Message.data_message m) = acknowledge codec (handle_data_message prims c m)
dispatch codec prims c Message.close_stanza = stop (message "mcs closed by server") c
dispatch codec prims c Message.stream_error = stop (message "mcs stream error") c
dispatch codec prims c m = next c

-- `ne, ok := err.(net.Error); ok && ne.Timeout()`
unfoldable pub is_timeout : GoError → Bool
is_timeout e = elim (as_net_error e) [ none ↦ false | some timed_out ↦ timed_out ]

unfoldable pub after_read : Codec → Primitives → Done Message → Round
unfolding dispatch is_timeout
after_read codec prims (ok m, c) = dispatch codec prims c m
after_read codec prims (err e, c) =
    if is_timeout e
    then after_send (wrapped "mcs send heartbeat") (send_msg codec c Message.heartbeat_ping)
    else stop (wrapped "mcs read" e) c

-- What happens round a round: whether another goroutine calls Close before the check of the context
-- or behind it, the error of the parent context if it is done, the error of SetReadDeadline.
pub record Tick : Type 0 where
  pub closed_before : Bool
  pub closed_behind : Bool
  pub parent_error : Option GoError
  pub deadline_error : Option GoError

-- ctx.Err() of the client's context, which is done by Close or with its parent.
abbrev pub context_error : Option Bool → Option GoError → Option GoError
context_error (some true) parent = some canceled
context_error (some false) parent = parent
context_error none parent = parent

abbrev pub close_if : Bool → Client → Client
close_if happens c = if happens then closed c else c

abbrev pub read_round : Codec → Primitives → Client → Option Conn → Option GoError → Round
read_round codec prims c none deadline = stop not_connected c
read_round codec prims c (some conn) none = after_read codec prims (read_msg codec c)
read_round codec prims c (some conn) (some e) = stop (wrapped "mcs set deadline" e) c

abbrev pub after_check : Codec → Primitives → Client → Tick → Option GoError → Round
after_check codec prims c tick (some e) = stop e c
after_check codec prims c tick none =
    let c' = close_if tick.closed_behind c in read_round codec prims c' c'.conn tick.deadline_error

unfoldable pub listen_round : Codec → Primitives → Client → Tick → Round
unfolding after_read
listen_round codec prims c tick =
    let c' = close_if tick.closed_before c in
    after_check codec prims c' tick (context_error c'.ctx tick.parent_error)

-- Listen over the rounds given: it has returned an error, or it is still running.
pub data Listening : Type 0 where
  running : Client → Listening
  returned : GoError → Client → Listening

abbrev pub listen_on : (Client → Listening) → Round → Listening
listen_on loop (next c) = loop c
listen_on loop (stop e c) = returned e (closed c)

unfoldable pub listen_loop : Codec → Primitives → List Tick → Client → Listening
listen_loop codec prims [] c = running c
listen_loop codec prims (t ∷ ts) c =
    listen_on (λ c'. listen_loop codec prims ts c') (listen_round codec prims c t)

-- The checks of Listen before its loop.
abbrev pub listen_from :
    Codec → Primitives → List Tick → Client → Option Bool → Option Conn → Listening
listen_from codec prims ts c none conn =
    returned (message "mcs: Listen called before Connect") (closed c)
listen_from codec prims ts c (some is_done) none = returned not_connected (closed c)
listen_from codec prims ts c (some is_done) (some conn) = listen_loop codec prims ts c

unfoldable pub listen : Codec → Primitives → List Tick → Client → Listening
unfolding listen_loop
listen codec prims ts c = listen_from codec prims ts c c.ctx c.conn
