-- ===== src/Fcm/Session/Closing.antt =====
-- How Connect, Listen and Close of MCSClient (pkg/googlefindmy/fcm/push.go) leave the connection.
use google_find_my_tools_go.Prelude.{
  Bool, false, ◌≡◌, arith, Option, none, some, Bool-cases, inl, inr,
}
use google_find_my_tools_go.Prelude.{List, [], ◌∷◌}
use google_find_my_tools_go.Fcm.Message.{Codec}
use google_find_my_tools_go.Fcm.PushCrypto.{Primitives}
use google_find_my_tools_go.Fcm.Client.{Client, Conn, close}
use google_find_my_tools_go.Fcm.Session.{
  Round, next, stop, Listening, running, returned, Tick, closed,
}
use google_find_my_tools_go.Fcm.Session.{listen_round, listen_on, listen_loop, listen_from, listen}

-- No connection, and nothing left to cancel: what Close leaves.
abbrev pub Closed : Client → Type 0
Closed c = (c.conn ≡ none) × (c.has_cancel ≡ false)

pub close-Closed : (c : Client) → Closed (closed c)
unfolding close
close-Closed c = ground arith

-- Close closes the connection once: called again it finds none, does nothing and returns nil.
pub close-close : (c : Client) → close (closed c) ≡ (closed c, none)
unfolding close
close-close c = elim (Bool-cases c.has_cancel) [ inl cancels ↦ simp cancels | inr idle ↦ simp idle ]

-- If Listen has returned, the client is closed.
abbrev pub EndsClosed : Listening → Type 0
EndsClosed (running c) = Unit
EndsClosed (returned e c) = Closed c

listen_on-EndsClosed :
    (loop : Client → Listening) (r : Round)
    → ((c : Client) → EndsClosed (loop c))
    → EndsClosed (listen_on loop r)
listen_on-EndsClosed loop (next c) later = later c
listen_on-EndsClosed loop (stop e c) later = close-Closed c

listen_loop-EndsClosed :
    (codec : Codec) (prims : Primitives) (ts : List Tick) (c : Client)
    → EndsClosed (listen_loop codec prims ts c)
unfolding listen_loop
listen_loop-EndsClosed codec prims [] c = tt
listen_loop-EndsClosed codec prims (t ∷ ts) c =
    listen_on-EndsClosed _ (listen_round codec prims c t) (listen_loop-EndsClosed codec prims ts)

listen_from-EndsClosed :
    (codec : Codec) (prims : Primitives) (ts : List Tick) (c : Client) (ctx : Option Bool)
    (conn : Option Conn)
    → EndsClosed (listen_from codec prims ts c ctx conn)
listen_from-EndsClosed codec prims ts c none conn = close-Closed c
listen_from-EndsClosed codec prims ts c (some is_done) none = close-Closed c
listen_from-EndsClosed codec prims ts c (some is_done) (some conn) =
    listen_loop-EndsClosed codec prims ts c

-- Whenever Listen has returned, with whatever error, the client is closed: it has no connection,
-- and nothing is left to cancel.
pub listen-EndsClosed :
    (codec : Codec) (prims : Primitives) (ts : List Tick) (c : Client)
    → EndsClosed (listen codec prims ts c)
unfolding listen
listen-EndsClosed codec prims ts c = listen_from-EndsClosed codec prims ts c c.ctx c.conn
