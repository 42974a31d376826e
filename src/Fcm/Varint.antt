-- ===== src/Fcm/Varint.antt =====
-- encodeVarint32 and decodeVarint32 of pkg/googlefindmy/fcm/push.go.
pub mod Encode
pub mod Decode
pub mod RoundTrip
mod Tests
use mathlib.Core.WellFounded.{Acc}
use google_find_my_tools_go.Prelude.{ℕ, zero, suc, ◌+◌, ◌*◌, ◌/◌, ◌%◌, ◌^◌, ◌≤◌, ◌<◌, arith}
use google_find_my_tools_go.Prelude.{List, [], ◌∷◌, dite, dec_le, bit_and, bit_or, leb, ◌==◌}
use google_find_my_tools_go.Prelude.{ok, err, if◌then◌else◌}
use google_find_my_tools_go.Prelude.Order.{lt_wf}
use google_find_my_tools_go.GoErrors.{GoError, message, eof}
use google_find_my_tools_go.Stream.{Stream, Reads, octet, fault}

pub shrinks : (x : ℕ) → 128 ≤ x → x / 128 < x
shrinks x h = omega arith

-- The loop runs while x >= 0x80; what it writes to the buffer, in order.
pub encode_loop : (x : ℕ) → Acc ◌<◌ x → List ℕ
encode_loop x (Acc.intro _ smaller) =
    dite (dec_le 128 x)
      (λ h. bit_or (x % 256) 0x80 ∷ encode_loop (x / 128) (smaller _ (shrinks x h)))
      (λ _. x % 256 ∷ [])

unfoldable pub encode_varint32 : ℕ → List ℕ
unfolding encode_loop lt_wf dec_le
encode_varint32 x = encode_loop x (lt_wf.apply x)

abbrev pub overflow : GoError
overflow = message "mcs: varint32 overflow"

-- `result |= uint32(b[0]&0x7F) << shift`
abbrev pub add_group : ℕ → ℕ → ℕ → ℕ
add_group result shift b = bit_or result (bit_and b 0x7f * 2 ^ shift % 2 ^ 32)

-- Each round reads one byte by io.ReadFull, which fails as the stream does.
pub decode_loop : Stream → ℕ → ℕ → Reads GoError ℕ
decode_loop [] result shift = (err eof, [])
decode_loop (fault e ∷ s) result shift = (err e, s)
decode_loop (octet b ∷ s) result shift =
    let result' = add_group result shift b in
    let more = decode_loop s result' (shift + 7) in
    if leb 32 shift
    then (err overflow, s)
    else if bit_and b 0x80 == 0
    then (ok result', s)
    else more

unfoldable pub decode_varint32 : Stream → Reads GoError ℕ
unfolding decode_loop
decode_varint32 s = decode_loop s 0 0
