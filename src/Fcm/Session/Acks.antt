-- ===== src/Fcm/Session/Acks.antt =====
-- Listen of MCSClient (pkg/googlefindmy/fcm/push.go): the pushes handed to the handler and the
-- persistent ids remembered for the server.
use mathlib.Core.List.{Mem}
use mathlib.Core.List.{mem-append_left, mem-append_right, mem-cons_self}
use google_find_my_tools_go.Prelude.{Bool, true, false, Option, none, some, inl, inr}
use google_find_my_tools_go.Prelude.{ℕ, List, [], ◌∷◌, All, All-append, ok, err, Bool-cases}
use google_find_my_tools_go.GoErrors.{GoError}
use google_find_my_tools_go.Bytes.{is_empty}
use google_find_my_tools_go.Fcm.Message.{Message, Codec}
use google_find_my_tools_go.Fcm.PushCrypto.{Primitives}
use google_find_my_tools_go.Fcm.Client.{
  Client, Conn, Done, send_msg, read_msg, send_selective_ack, remember_persistent_id,
}
use google_find_my_tools_go.Fcm.Session.{Round, next, stop, Listening, running, returned, Tick}
use google_find_my_tools_go.Fcm.Session.{
  handle_data_message, dispatch, after_read, listen_round, listen_loop, listen, closed, after_send,
  acknowledge, is_timeout, read_round, close_if, after_check, listen_on, listen_from,
}
use google_find_my_tools_go.Fcm.Session.Keeps.{
  Keeps, Delivers, close-Keeps, send_msg-Keeps, read_msg-Keeps, ack-Keeps, handle-Delivers,
  unnamed-Keeps,
}

-- Every call of the handler had a persistent id that the client remembers.
abbrev pub Reported : Client → Type 0
Reported c = All (λ push. Mem push.1 c.received_persistent_ids) c.delivered

All-mono {ℓ κ} :
    {A : Type ℓ} {P Q : A → Type κ} (xs : List A) → ((x : A) → P x → Q x) → All P xs → All Q xs
All-mono [] f h = tt
All-mono (x ∷ xs) f (px, pxs) = (f x px, All-mono xs f pxs)

Keeps-Reported : (c c' : Client) → Keeps c c' → Reported c → Reported c'
Keeps-Reported c c' (ids, pushes) reported = simp (ids, pushes) reported

remember-Reported :
    (c c' : Client) (id : List ℕ)
    → Delivers c c' id
    → Reported c
    → Reported (remember_persistent_id c' id)
unfolding remember_persistent_id Delivers
remember-Reported c c' id (ids, inl pushes) reported =
    simp (ids, pushes) (All-mono c.delivered (λ push. mem-append_left (id ∷ [])) reported)
remember-Reported c c' id (ids, inr (named, (payload, pushes))) reported =
    simp (ids, pushes)
      (All-append _ c.delivered ((payload, id) ∷ [])
        (All-mono c.delivered (λ push. mem-append_left (id ∷ [])) reported)
        (mem-append_right c.received_persistent_ids mem-cons_self, tt))

-- The client behind a round.
abbrev client_of : Round → Client
client_of (next c) = c
client_of (stop e c) = c

after_send-Reported :
    (f : GoError → GoError) (r : Done (Unit {0}))
    → Reported r.1
    → Reported (client_of (after_send f r))
after_send-Reported f (ok _, c) h = h
after_send-Reported f (err e, c) h = h

send-Reported :
    (codec : Codec) (c : Client) (m : Message) (f : GoError → GoError)
    → Reported c
    → Reported (client_of (after_send f (send_msg codec c m)))
send-Reported codec c m f h =
    after_send-Reported f _ (Keeps-Reported c (send_msg codec c m).1 (send_msg-Keeps codec c m) h)

acknowledge-Reported :
    (codec : Codec) (c c' : Client) (id : List ℕ)
    → Delivers c c' id
    → Reported c
    → Reported (client_of (acknowledge codec (id, c')))
acknowledge-Reported codec c c' id d h = elim (Bool-cases (is_empty id)) [
  | inl empty ↦ simp empty (Keeps-Reported c c' (unnamed-Keeps c c' id empty d) h)
  | inr named ↦ simp named (
      after_send-Reported _ (send_selective_ack codec (remember_persistent_id c' id) id) (
        Keeps-Reported (remember_persistent_id c' id)
          (send_selective_ack codec (remember_persistent_id c' id) id).1
          (ack-Keeps codec (remember_persistent_id c' id) id) (remember-Reported c c' id d h)))
]

dispatch-Reported :
    (codec : Codec) (prims : Primitives) (c : Client) (m : Message)
    → Reported c
    → Reported (client_of (dispatch codec prims c m))
unfolding dispatch
dispatch-Reported codec prims c Message.heartbeat_ping h = send-Reported codec c _ _ h
dispatch-Reported codec prims c (Message.data_message m) h =
    acknowledge-Reported codec c (handle_data_message prims c m).1 m.persistent_id
      (handle-Delivers prims c m) h
dispatch-Reported codec prims c m h = h

after_read-Reported :
    (codec : Codec) (prims : Primitives) (r : Done Message)
    → Reported r.1
    → Reported (client_of (after_read codec prims r))
unfolding after_read
after_read-Reported codec prims (ok m, c) h = dispatch-Reported codec prims c m h
after_read-Reported codec prims (err e, c) h = elim (Bool-cases (is_timeout e)) [
  | inl timed_out ↦ simp timed_out (send-Reported codec c _ _ h)
  | inr other ↦ simp other h
]

read_round-Reported :
    (codec : Codec) (prims : Primitives) (c : Client) (conn : Option Conn)
    (deadline : Option GoError)
    → Reported c
    → Reported (client_of (read_round codec prims c conn deadline))
read_round-Reported codec prims c none deadline h = h
read_round-Reported codec prims c (some conn) (some e) h = h
read_round-Reported codec prims c (some conn) none h =
    after_read-Reported codec prims (read_msg codec c)
      (Keeps-Reported c (read_msg codec c).1 (read_msg-Keeps codec c) h)

close_if-Reported : (happens : Bool) (c : Client) → Reported c → Reported (close_if happens c)
close_if-Reported true c h = Keeps-Reported c (closed c) (close-Keeps c) h
close_if-Reported false c h = h

after_check-Reported :
    (codec : Codec) (prims : Primitives) (c : Client) (t : Tick) (ctx_error : Option GoError)
    → Reported c
    → Reported (client_of (after_check codec prims c t ctx_error))
after_check-Reported codec prims c t (some e) h = h
after_check-Reported codec prims c t none h =
    read_round-Reported codec prims (close_if t.closed_behind c) _ t.deadline_error
      (close_if-Reported t.closed_behind c h)

listen_round-Reported :
    (codec : Codec) (prims : Primitives) (c : Client) (t : Tick)
    → Reported c
    → Reported (client_of (listen_round codec prims c t))
unfolding listen_round
listen_round-Reported codec prims c t h =
    after_check-Reported codec prims (close_if t.closed_before c) t _
      (close_if-Reported t.closed_before c h)

-- The client behind Listen.
abbrev pub client_behind : Listening → Client
client_behind (running c) = c
client_behind (returned e c) = c

closed-Reported : (c : Client) → Reported c → Reported (closed c)
closed-Reported c h = Keeps-Reported c (closed c) (close-Keeps c) h

listen_on-Reported :
    (loop : Client → Listening) (r : Round)
    → ((c : Client) → Reported c → Reported (client_behind (loop c)))
    → Reported (client_of r)
    → Reported (client_behind (listen_on loop r))
listen_on-Reported loop (next c) later h = later c h
listen_on-Reported loop (stop e c) later h = closed-Reported c h

listen_loop-Reported :
    (codec : Codec) (prims : Primitives) (ts : List Tick) (c : Client)
    → Reported c
    → Reported (client_behind (listen_loop codec prims ts c))
unfolding listen_loop
listen_loop-Reported codec prims [] c h = h
listen_loop-Reported codec prims (t ∷ ts) c h =
    listen_on-Reported _ (listen_round codec prims c t) (listen_loop-Reported codec prims ts)
      (listen_round-Reported codec prims c t h)

listen_from-Reported :
    (codec : Codec) (prims : Primitives) (ts : List Tick) (c : Client) (ctx : Option Bool)
    (conn : Option Conn)
    → Reported c
    → Reported (client_behind (listen_from codec prims ts c ctx conn))
listen_from-Reported codec prims ts c none conn h = closed-Reported c h
listen_from-Reported codec prims ts c (some is_done) none h = closed-Reported c h
listen_from-Reported codec prims ts c (some is_done) (some conn) h =
    listen_loop-Reported codec prims ts c h

-- However Listen runs and ends, if each push handed to the handler so far had a persistent id that
-- the client remembers for its next login, this holds again behind Listen.
pub listen-Reported :
    (codec : Codec) (prims : Primitives) (ts : List Tick) (c : Client)
    → Reported c
    → Reported (client_behind (listen codec prims ts c))
unfolding listen
listen-Reported codec prims ts c h = listen_from-Reported codec prims ts c c.ctx c.conn h
