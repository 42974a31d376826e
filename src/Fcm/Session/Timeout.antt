-- ===== src/Fcm/Session/Timeout.antt =====
-- Read errors in Listen of MCSClient (pkg/googlefindmy/fcm/push.go).
use google_find_my_tools_go.Prelude.{
  Result-cases, Bool, true, false, ◌≡◌, refl, arith, none, some, Result, ok, err, fail_if, wrap_err,
  Option-cases, inl, inr,
}
use google_find_my_tools_go.GoErrors.{GoError, message, wrapped, as_net_error}
use Prim.Native.String.{String}
use google_find_my_tools_go.Fcm.Varint.{decode_varint32}
use google_find_my_tools_go.Stream.{Stream, Reader, ◌>>=◌, lift, wrap_read, read_full}
use google_find_my_tools_go.Fcm.Message.{Message, Codec}
use google_find_my_tools_go.Fcm.PushCrypto.{Primitives}
use google_find_my_tools_go.Fcm.Client.{
  Client, Conn, Done, read_tag, read_frame, read_msg, not_connected,
}
use google_find_my_tools_go.Fcm.Session.{stop, Tick, is_timeout, after_read, listen_round}

-- A reader none of whose errors is taken for a timeout.
data NoTimeout {ℓ} {A : Type ℓ} (m : Reader A) : Type ℓ where
  no_timeout : ((s : Stream) (e : GoError) → (m s).0 ≡ err e → is_timeout e ≡ false) → NoTimeout m

fail_if-NoTimeout : (t : String) (b : Bool) → NoTimeout (lift (fail_if b (message t)))
unfolding is_timeout as_net_error
fail_if-NoTimeout t true = no_timeout λ s e h. ground arith
fail_if-NoTimeout t false = no_timeout λ s e h. ground arith

lift_ok-NoTimeout {ℓ} : {A : Type ℓ} (a : A) → NoTimeout (lift (ok a))
lift_ok-NoTimeout a = no_timeout λ s e h. ground arith

wrap_err-is_timeout {ℓ} :
    {A : Type ℓ} (t : String) (r : Result GoError A) (e : GoError)
    → wrap_err (wrapped t) r ≡ err e
    → is_timeout e ≡ false
unfolding is_timeout as_net_error
wrap_err-is_timeout t (ok a) e h = ground arith
wrap_err-is_timeout t (err e') e h = ground arith

wrap_read-NoTimeout {ℓ} :
    {A : Type ℓ} (t : String) (m : Reader A) → NoTimeout (wrap_read (wrapped t) m)
wrap_read-NoTimeout t m = no_timeout λ s e h. wrap_err-is_timeout t (m s).0 e h

same_error {ℓ} :
    {A : Type ℓ} (e' e : GoError)
    → ◌≡◌ {A = Result GoError A} (err e') (err e)
    → is_timeout e' ≡ false
    → is_timeout e ≡ false
same_error e' e same h = cc

bind-NoTimeout {ℓ κ} :
    {A : Type ℓ} {B : Type κ} {m : Reader A} {f : A → Reader B}
    → NoTimeout m
    → ((a : A) → NoTimeout (f a))
    → NoTimeout (m >>= f)
bind-NoTimeout {m = m} {f = f} (no_timeout first) later = no_timeout λ s e h.
    elim (Result-cases (m s).0) [
      | inl (a, is_ok) ↦ elim (later a) [ no_timeout rest ↦ rest (m s).1 e (rw is_ok at h) ]
      | inr (e', failed) ↦ same_error e' e (rw failed at h) (first s e' failed)
    ]

read_tag-NoTimeout : (first : Bool) → NoTimeout (read_tag first)
unfolding read_tag
read_tag-NoTimeout true =
    bind-NoTimeout (wrap_read-NoTimeout "mcs read header" (read_full 2)) λ hdr.
      bind-NoTimeout (fail_if-NoTimeout "mcs: unsupported protocol version" _)
        λ _. lift_ok-NoTimeout _
read_tag-NoTimeout false =
    bind-NoTimeout (wrap_read-NoTimeout "mcs read tag" (read_full 1)) λ b. lift_ok-NoTimeout _

read_frame-NoTimeout : (codec : Codec) (first : Bool) → NoTimeout (read_frame codec first)
unfolding read_frame
read_frame-NoTimeout codec first = bind-NoTimeout (read_tag-NoTimeout first) λ tag.
    bind-NoTimeout (wrap_read-NoTimeout "mcs read size" decode_varint32) λ size.
      bind-NoTimeout (fail_if-NoTimeout "mcs: message size exceeds limit" _) λ _.
        bind-NoTimeout (wrap_read-NoTimeout "mcs read payload" (read_full size)) λ payload.
          bind-NoTimeout (fail_if-NoTimeout "mcs: unknown tag" _)
            λ _. wrap_read-NoTimeout "mcs unmarshal tag" (lift (codec.unmarshal tag payload))

pub read_msg-NoTimeout :
    (codec : Codec) (c : Client) (e : GoError) → (read_msg codec c).0 ≡ err e → is_timeout e ≡ false
unfolding read_msg is_timeout as_net_error
read_msg-NoTimeout codec c e h = elim (Option-cases c.conn) [
  | inl absent ↦ same_error not_connected e (rw absent at h) refl
  | inr (conn, present) ↦ elim (read_frame-NoTimeout codec c.first_message) [
    | no_timeout safe ↦ safe conn.incoming e (rw present at h)
  ]
]

-- A tick on which nothing happens but the read: no Close, the parent context alive, the deadline
-- set.
abbrev pub quiet : Tick
quiet = record {
  closed_before = false;
  closed_behind = false;
  parent_error = none;
  deadline_error = none;
}

after_read_stops :
    (codec : Codec) (prims : Primitives) (r : Done Message) (e : GoError)
    → r.0 ≡ err e
    → is_timeout e ≡ false
    → after_read codec prims r ≡ stop (wrapped "mcs read" e) r.1
unfolding after_read
after_read_stops codec prims (ok m, c) e failed plain = ground arith
after_read_stops codec prims (err e', c) e failed plain = ground arith

-- In a round of Listen on a live connection in which nothing but the read happens, whatever error
-- readMsg returns, that of a read deadline that passed included, no heartbeat is sent: Listen
-- stops with the error as "mcs read".
pub listen_round_read_error :
    (codec : Codec) (prims : Primitives) (c : Client) (conn : Conn) (e : GoError)
    → c.ctx ≡ some false
    → c.conn ≡ some conn
    → (read_msg codec c).0 ≡ err e
    → listen_round codec prims c quiet ≡ stop (wrapped "mcs read" e) (read_msg codec c).1
unfolding listen_round after_read
listen_round_read_error codec prims c conn e alive connected failed =
    simp (alive, connected)
      (after_read_stops codec prims (read_msg codec c) e failed
        (read_msg-NoTimeout codec c e failed))
