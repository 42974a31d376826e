-- ===== src/Fcm/Message.antt =====
-- The messages of the MCS stream (proto/fcm/mcs.proto) as push.go builds and reads them: of each
-- message the fields that the client sets or looks at. Marshalling is protobuf's, a parameter.
use google_find_my_tools_go.Prelude.{ℕ, List, Option, none, some, Result, ok, Bool, ◌≡◌, ◌==◌, ◌||◌}
use google_find_my_tools_go.GoErrors.{GoError}

-- LoginRequest with the fields of Connect that vary; the others are constants there.
pub record LoginRequest : Type 0 where
  pub auth_token : List ℕ
  pub device_id : List ℕ
  pub user : List ℕ
  pub resource : List ℕ
  pub received_persistent_id : List (List ℕ)

-- IqStanza of type SET with an empty id and one extension.
pub record IqStanza : Type 0 where
  pub extension_id : ℕ
  pub extension_data : List ℕ

-- DataMessageStanza; an absent string field is read as the empty string.
pub record DataMessage : Type 0 where
  pub app_data : List (List ℕ × List ℕ)
  pub raw_data : List ℕ
  pub persistent_id : List ℕ

-- `untagged` stands for a message of a type that the MCS stream has no tag for.
pub data Message : Type 0 where
  heartbeat_ping heartbeat_ack login_response close_stanza stream_error untagged : Message
  login_request : LoginRequest → Message
  iq_stanza : IqStanza → Message
  data_message : DataMessage → Message

-- tagByName
unfoldable pub tag_by_name : Message → Option ℕ
tag_by_name heartbeat_ping = some 0
tag_by_name heartbeat_ack = some 1
tag_by_name (login_request r) = some 2
tag_by_name login_response = some 3
tag_by_name close_stanza = some 4
tag_by_name (iq_stanza q) = some 7
tag_by_name (data_message m) = some 8
tag_by_name stream_error = some 10
tag_by_name untagged = none

-- the keys of newMessageByTag
unfoldable pub has_message : ℕ → Bool
has_message tag =
    tag == 0 || tag == 1 || tag == 2 || tag == 3 || tag == 4 || tag == 7 || tag == 8 || tag == 10

-- proto.Marshal, proto.Unmarshal into the message type of a tag, and proto.Marshal of the
-- SelectiveAck with one persistent id.
pub record Codec : Type 0 where
  pub marshal : Message → Result GoError (List ℕ)
  pub unmarshal : ℕ → List ℕ → Result GoError Message
  pub marshal_selective_ack : List ℕ → Result GoError (List ℕ)

-- What protobuf promises: a message is read back from its bytes.
abbrev pub ReadsBack : Codec → Type 0
ReadsBack codec =
    (m : Message) (tag : ℕ) (payload : List ℕ)
    → tag_by_name m ≡ some tag
    → codec.marshal m ≡ ok payload
    → codec.unmarshal tag payload ≡ ok m
