-- ===== src/Fcm/Session/Keeps.antt =====
-- Listen of MCSClient (pkg/googlefindmy/fcm/push.go): which steps change
-- the pushes handed to the handler and the ids remembered for the server.
use google_find_my_tools_go.Prelude.{true, false, ◌≡◌, refl, ap, not, ◌&&◌, ◌⊎◌, inl, inr, arith}
use google_find_my_tools_go.Prelude.{
  ℕ, List, [], ◌∷◌, ◌++◌, Result, ok, err, Result-cases, Bool-cases,
}
use google_find_my_tools_go.GoErrors.{GoError}
use google_find_my_tools_go.Bytes.{is_empty}
use google_find_my_tools_go.Fcm.Message.{Message, Codec, DataMessage}
use google_find_my_tools_go.Fcm.PushCrypto.{Primitives, PushCrypto, decrypt}
use google_find_my_tools_go.Fcm.Client.{Client, Done, close, send_msg, read_msg, send_selective_ack}
use google_find_my_tools_go.Fcm.Session.{
  push_crypto, handle_data_message, closed, deliver, handle_with,
}

-- The calls of the handler and the remembered ids are the same in both clients.
abbrev pub Keeps : Client → Client → Type 0
Keeps c c' = (c'.received_persistent_ids ≡ c.received_persistent_ids) × (c'.delivered ≡ c.delivered)

pub close-Keeps : (c : Client) → Keeps c (closed c)
unfolding close
close-Keeps c = ground arith

pub send_msg-Keeps : (codec : Codec) (c : Client) (m : Message) → Keeps c (send_msg codec c m).1
unfolding send_msg
send_msg-Keeps codec c m = ground arith

pub read_msg-Keeps : (codec : Codec) (c : Client) → Keeps c (read_msg codec c).1
unfolding read_msg
read_msg-Keeps codec c = ground arith

pub ack-Keeps :
    (codec : Codec) (c : Client) (id : List ℕ) → Keeps c (send_selective_ack codec c id).1
unfolding send_selective_ack
ack-Keeps codec c id = elim (Result-cases (codec.marshal_selective_ack id)) [
  | inl (a, is_ok) ↦ simp is_ok (send_msg-Keeps codec c _)
  | inr (e, failed) ↦ simp failed (refl, refl)
]

push_crypto-Keeps : (prims : Primitives) (c : Client) → Keeps c (push_crypto prims c).1
unfolding push_crypto
push_crypto-Keeps prims c = ground arith

-- What handleDataMessage does to both lists: a push is delivered with the id it returns, or none
-- is.
unfoldable pub Delivers : Client → Client → List ℕ → Type 0
Delivers c c' id =
    (c'.received_persistent_ids ≡ c.received_persistent_ids)
    × ((c'.delivered ≡ c.delivered)
        ⊎ (is_empty id ≡ false)
          × ((payload : List ℕ) × (c'.delivered ≡ c.delivered ++ (payload, id) ∷ [])))

deliver-Delivers :
    (c c' : Client) (id : List ℕ) (r : Result GoError (List ℕ))
    → Keeps c c'
    → Delivers c (deliver c' id r) id
unfolding Delivers
deliver-Delivers c c' id (err e) (ids, pushes) = (ids, inl pushes)
deliver-Delivers c c' id (ok payload) (ids, pushes) =
    elim (Bool-cases (not (is_empty id) && c'.has_handler)) [
      | inl both ↦
          simp both (ids, inr (named both, (payload, ap (λ t. t ++ (payload, id) ∷ []) pushes)))
      | inr missing ↦ simp missing (ids, inl pushes)
    ]
  where
    named : not (is_empty id) && c'.has_handler ≡ true → is_empty id ≡ false
    named both = ground arith

handle_with-Delivers :
    (prims : Primitives) (c : Client) (m : DataMessage) (r : Done PushCrypto)
    → Keeps c r.1
    → Delivers c (handle_with prims m r) m.persistent_id
handle_with-Delivers prims c m (err e, c') keeps = deliver-Delivers c c' _ (err e) keeps
handle_with-Delivers prims c m (ok p, c') keeps = deliver-Delivers c c' _ (decrypt prims p m) keeps

pub handle-Delivers :
    (prims : Primitives) (c : Client) (m : DataMessage)
    → Delivers c (handle_data_message prims c m).1 m.persistent_id
unfolding handle_data_message
handle-Delivers prims c m =
    handle_with-Delivers prims c m (push_crypto prims c) (push_crypto-Keeps prims c)

-- With an empty id nothing is delivered.
pub unnamed-Keeps :
    (c c' : Client) (id : List ℕ) → is_empty id ≡ true → Delivers c c' id → Keeps c c'
unfolding Delivers
unnamed-Keeps c c' id empty (ids, inl pushes) = (ids, pushes)
unnamed-Keeps c c' id empty (ids, inr (named, _)) = ground arith
