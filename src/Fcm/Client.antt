-- ===== src/Fcm/Client.antt =====
-- MCSClient of pkg/googlefindmy/fcm/push.go: its state, Close, sendMsg, readMsg and the selective
-- acknowledgement. A method takes the client and returns its result and the client afterwards.
use google_find_my_tools_go.Prelude.{ℕ, zero, suc, ◌*◌, ◌%◌, ◌^◌, Bool, true, false, not, ◌&&◌}
use google_find_my_tools_go.Prelude.{
  List, [], ◌∷◌, ◌++◌, length, take, drop, get_or, Option, none, some,
}
use google_find_my_tools_go.Prelude.{Result, ok, err, wrap_err, fail_if, ltb, ◌==◌, if◌then◌else◌}
use google_find_my_tools_go.GoErrors.{GoError, message, wrapped, unexpected_eof}
use google_find_my_tools_go.Stream.{Stream, Reads, Reader, ◌>>=◌, ◌>>◌, lift, wrap_read, read_full}
use google_find_my_tools_go.Fcm.Varint.{encode_varint32, decode_varint32}
use google_find_my_tools_go.Fcm.Message.{
  Message, Codec, IqStanza, iq_stanza, tag_by_name, has_message,
}
use google_find_my_tools_go.Fcm.PushCrypto.{FcmCredentials, PushCrypto}
pub mod Wire

abbrev pub mcs_version : ℕ
mcs_version = 41

abbrev pub mcs_selective_ack_id : ℕ
mcs_selective_ack_id = 12

abbrev pub max_mcs_message_size : ℕ
max_mcs_message_size = 16 * 2 ^ 20

-- What a call of conn.Write does: it takes a number of bytes, or fails.
pub data WriteCall : Type 0 where
  takes : ℕ → WriteCall
  fails : GoError → WriteCall

-- A connection: what will arrive, what its next writes do (past the list they take all), the bytes
-- written so far, and what Close returns.
pub record Conn : Type 0 where
  pub incoming : Stream
  pub writes : List WriteCall
  pub outgoing : List ℕ
  pub close_error : Option GoError

-- `ctx` is nil or a context, with whether it is done; `has_cancel` says that c.cancel is not nil.
-- `crypto` is what cryptoOnce has computed. `delivered` lists the calls of the handler.
pub record Client : Type 0 where
  pub creds : Option FcmCredentials
  pub has_handler : Bool
  pub conn : Option Conn
  pub ctx : Option Bool
  pub has_cancel : Bool
  pub first_message : Bool
  pub received_persistent_ids : List (List ℕ)
  pub crypto : Option (Result GoError PushCrypto)
  pub delivered : List (List ℕ × List ℕ)

abbrev pub Done {ℓ} : Type ℓ → Type ℓ
Done A = Result GoError A × Client

abbrev pub not_connected : GoError
not_connected = message "mcs: not connected"

unfoldable pub new_mcs_client : Option FcmCredentials → Bool → Client
new_mcs_client creds has_handler = record {
  creds = creds;
  has_handler = has_handler;
  conn = none;
  ctx = none;
  has_cancel = false;
  first_message = false;
  received_persistent_ids = [];
  crypto = none;
  delivered = [];
}

unfoldable pub remember_persistent_id : Client → List ℕ → Client
remember_persistent_id c id = record c {
  received_persistent_ids = c.received_persistent_ids ++ id ∷ [];
}

-- c.cancel() makes the client's context done.
abbrev cancel : Client → Client
cancel c = if c.has_cancel then record c { ctx = some true; has_cancel = false } else c

abbrev close_result : Option Conn → Option GoError
close_result none = none
close_result (some conn) = conn.close_error

unfoldable pub close : Client → Client × Option GoError
close c = let c' = cancel c in (record c' { conn = none }, close_result c.conn)

-- The loop of sendMsg over conn.Write: the result, the writes to come, all bytes written.
unfoldable pub write_loop :
    List WriteCall → List ℕ → List ℕ → Result GoError (Unit {0}) × List WriteCall × List ℕ
write_loop ws [] out = (ok tt, ws, out)
write_loop [] (b ∷ bs) out = (ok tt, [], out ++ b ∷ bs)
write_loop (fails e ∷ ws) (b ∷ bs) out = (err e, ws, out)
write_loop (takes n ∷ ws) (b ∷ bs) out =
    let rest = write_loop ws (drop n (b ∷ bs)) (out ++ take n (b ∷ bs)) in
    if n == 0 then (err unexpected_eof, ws, out) else rest

-- The version byte is there until the first message is received; uint32(len(payload)) wraps.
unfoldable pub frame_of : Bool → ℕ → List ℕ → List ℕ
frame_of first tag payload =
    (if first then mcs_version ∷ tag % 256 ∷ [] else tag % 256 ∷ [])
    ++ encode_varint32 (length payload % 2 ^ 32)
    ++ payload

abbrev write_frame : Client → Conn → List ℕ → Done (Unit {0})
write_frame c conn frame =
    let (r, writes, outgoing) = write_loop conn.writes frame conn.outgoing in
    (r, record c { conn = some (record conn { writes = writes; outgoing = outgoing }) })

abbrev send_payload : Client → ℕ → Result GoError (List ℕ) → Done (Unit {0})
send_payload c tag (err e) = (err (wrapped "mcs marshal" e), c)
send_payload c tag (ok payload) = elim c.conn [
  | none ↦ (err not_connected, c)
  | some conn ↦ write_frame c conn (frame_of c.first_message tag payload)
]

unfoldable pub send_msg : Codec → Client → Message → Done (Unit {0})
send_msg codec c m = elim (tag_by_name m) [
  | none ↦ (err (message "mcs: unknown tag"), c)
  | some tag ↦ send_payload c tag (codec.marshal m)
]

-- The tag of a frame, behind the version byte if the frame is the first one received.
unfoldable pub read_tag : Bool → Reader ℕ
read_tag true = do
  hdr ← wrap_read (wrapped "mcs read header") (read_full 2)
  lift (
      fail_if (ltb (get_or hdr 0 0) mcs_version && not (get_or hdr 0 0 == 38))
        (message "mcs: unsupported protocol version"))
  lift (ok (get_or hdr 1 0))
read_tag false = do b ← wrap_read (wrapped "mcs read tag") (read_full 1); lift (ok (get_or b 0 0))

unfoldable pub read_frame : Codec → Bool → Reader Message
read_frame codec first = do
  tag ← read_tag first
  size ← wrap_read (wrapped "mcs read size") decode_varint32
  lift (fail_if (ltb max_mcs_message_size size) (message "mcs: message size exceeds limit"))
  payload ← wrap_read (wrapped "mcs read payload") (read_full size)
  lift (fail_if (not (has_message tag)) (message "mcs: unknown tag"))
  lift (wrap_err (wrapped "mcs unmarshal tag") (codec.unmarshal tag payload))

abbrev read_conn : Codec → Client → Conn → Done Message
read_conn codec c conn =
    let (r, incoming) = read_frame codec c.first_message conn.incoming in
    (r, record c { conn = some (record conn { incoming = incoming }); first_message = false })

unfoldable pub read_msg : Codec → Client → Done Message
read_msg codec c = elim c.conn [
  | none ↦ (err not_connected, c)
  | some conn ↦ read_conn codec c conn
]

abbrev send_ack_data : Codec → Client → Result GoError (List ℕ) → Done (Unit {0})
send_ack_data codec c (err e) = (err (wrapped "mcs marshal selective ack" e), c)
send_ack_data codec c (ok ack) =
    send_msg codec c
      (iq_stanza (record { extension_id = mcs_selective_ack_id; extension_data = ack }))

unfoldable pub send_selective_ack : Codec → Client → List ℕ → Done (Unit {0})
send_selective_ack codec c persistent_id =
    send_ack_data codec c (codec.marshal_selective_ack persistent_id)
