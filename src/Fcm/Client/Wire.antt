-- ===== src/Fcm/Client/Wire.antt =====
-- The bytes that sendMsg writes and readMsg reads.
use google_find_my_tools_go.Prelude.{ℕ, ◌%◌, ◌^◌, ◌≤◌, ◌<◌, ◌≡◌, refl, sym, ap, ◌∙◌, arith}
use google_find_my_tools_go.Prelude.{
  List, [], ◌∷◌, ◌++◌, length, take, drop, some, Bool, true, false,
}
use google_find_my_tools_go.Prelude.{
  ok, append_assoc, append-nil, take-append-drop, Bool-cases, inl, inr, ◌==◌, ltb-eq-false,
  map-append,
}
use native.Mathlib.Nat.{mod-eq_of_lt}
use google_find_my_tools_go.Stream.{Stream, octets, read_full}
use google_find_my_tools_go.Stream.Laws.{read_full-octets}
use google_find_my_tools_go.Fcm.Varint.{encode_varint32, decode_varint32}
use google_find_my_tools_go.Fcm.Varint.RoundTrip.{decode_varint32-encode_varint32}
use google_find_my_tools_go.Fcm.Message.{Message, Codec, ReadsBack, tag_by_name, has_message}
use google_find_my_tools_go.Fcm.Client.{
  WriteCall, takes, fails, write_loop, frame_of, read_tag, read_frame,
}
use google_find_my_tools_go.Fcm.Client.{max_mcs_message_size}

-- However the connection splits the writes, a frame that is sent without error is on the wire
-- whole, once, behind what was written before.
pub write_loop_whole :
    (ws : List WriteCall) (frame out : List ℕ)
    → (write_loop ws frame out).0 ≡ ok tt
    → (write_loop ws frame out).2 ≡ out ++ frame
unfolding write_loop
write_loop_whole ws [] out h = sym (append-nil out)
write_loop_whole [] (b ∷ bs) out h = refl
write_loop_whole (fails e ∷ ws) (b ∷ bs) out h = cc
write_loop_whole (takes n ∷ ws) (b ∷ bs) out h = elim (Bool-cases (n == 0)) [
  | inl stalled ↦ cc (rw stalled at h)
  | inr going ↦ rw going (
      write_loop_whole ws (drop n (b ∷ bs)) (out ++ take n (b ∷ bs)) (rw going at h)
      ∙ append_assoc out (take n (b ∷ bs)) (drop n (b ∷ bs))
      ∙ ap (λ t. out ++ t) (take-append-drop n (b ∷ bs)))
]

tag_known :
    (m : Message) (tag : ℕ) → tag_by_name m ≡ some tag → (has_message tag ≡ true) × (tag < 256)
unfolding tag_by_name has_message
tag_known Message.heartbeat_ping tag h = ground arith
tag_known m tag h = ground arith

-- The tag of a frame is read back, with the version byte and without it.
read_tag-frame_of :
    (first : Bool) (tag : ℕ) (payload : List ℕ) (s : Stream)
    → tag < 256
    → read_tag first (octets (frame_of first tag payload) ++ s)
      ≡ (ok tag, octets (encode_varint32 (length payload % 2 ^ 32) ++ payload) ++ s)
unfolding read_tag frame_of read_full
read_tag-frame_of true tag payload s small = rw (mod-eq_of_lt small) refl
read_tag-frame_of false tag payload s small = rw (mod-eq_of_lt small) refl

read_size :
    (payload : List ℕ) (s : Stream)
    → length payload ≤ max_mcs_message_size
    → decode_varint32 (octets (encode_varint32 (length payload % 2 ^ 32) ++ payload) ++ s)
      ≡ (ok (length payload), octets payload ++ s)
read_size payload s small =
    rw (mod-eq_of_lt fits, map-append, append_assoc)
      (decode_varint32-encode_varint32 (length payload) (octets payload ++ s) fits)
  where
    fits : length payload < 2 ^ 32
    fits = omega arith

-- If protobuf reads its own bytes back, a message of at most 16 MiB that sendMsg frames is read
-- back by readMsg in the same state of the stream, first message or later, and what follows it
-- stays unread.
pub read_frame-frame_of :
    (codec : Codec) (first : Bool) (m : Message) (tag : ℕ) (payload : List ℕ) (s : Stream)
    → ReadsBack codec
    → tag_by_name m ≡ some tag
    → codec.marshal m ≡ ok payload
    → length payload ≤ max_mcs_message_size
    → read_frame codec first (octets (frame_of first tag payload) ++ s) ≡ (ok m, s)
unfolding read_frame
read_frame-frame_of codec first m tag payload s reads named marshalled small =
    let (known, byte) = tag_known m tag named in
    rw (read_tag-frame_of first tag payload s byte) (
      rw
        (
          read_size payload s small,
          ltb-eq-false max_mcs_message_size (length payload) small,
          read_full-octets payload s,
          known,
          reads m tag payload named marshalled,
        )
        refl)
