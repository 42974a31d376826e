-- ===== src/Fcm/Varint/RoundTrip.antt =====
-- decodeVarint32 reads back what encodeVarint32 wrote.
use google_find_my_tools_go.Prelude.{ℕ, ◌^◌, ◌<◌, ◌≡◌, ◌∙◌}
use google_find_my_tools_go.Prelude.{◌++◌, ok}
use native.Mathlib.Nat.{mod-eq_of_lt}
use google_find_my_tools_go.Stream.{Stream, octets}
use google_find_my_tools_go.Fcm.Varint.{encode_varint32, decode_varint32}
use google_find_my_tools_go.Fcm.Varint.Encode.{encode_varint32_form}
use google_find_my_tools_go.Fcm.Varint.Decode.{decode_varint32_groups}

-- Every uint32 is decoded from its encoding, and the stream behind it is left alone.
pub decode_varint32-encode_varint32 :
    (x : ℕ) (s : Stream)
    → x < 2 ^ 32
    → decode_varint32 (octets (encode_varint32 x) ++ s) ≡ (ok x, s)
decode_varint32-encode_varint32 x s h =
    let e = encode_varint32_form x h in
    rw (e.shape) (
      decode_varint32_groups e.front e.last s e.continues e.ends e.short
      ∙ rw (e.means, mod-eq_of_lt h))
