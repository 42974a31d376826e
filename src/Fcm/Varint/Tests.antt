-- ===== src/Fcm/Varint/Tests.antt =====
-- Runs of the two varint functions, and their theorems at concrete numbers.
use google_find_my_tools_go.Prelude.{◌≡◌, refl, arith, [], ◌∷◌, ◌++◌}
use google_find_my_tools_go.Prelude.{ok}
use google_find_my_tools_go.Stream.{octets}
use google_find_my_tools_go.Fcm.Varint.{encode_varint32, decode_varint32}
use google_find_my_tools_go.Fcm.Varint.RoundTrip.{decode_varint32-encode_varint32}

encode_300 : encode_varint32 300 ≡ 0xac ∷ 0x02 ∷ []
unfolding encode_varint32
encode_300 = refl

-- The top three bits of a fifth group are lost without an error.
decode_wide :
    decode_varint32 (octets (0xff ∷ 0xff ∷ 0xff ∷ 0xff ∷ 0x7f ∷ [])) ≡ (ok 0xffff_ffff, [])
unfolding decode_varint32
decode_wide = refl

decode_varint32-encode_varint32_example :
    decode_varint32 (octets (encode_varint32 300) ++ octets (9 ∷ [])) ≡ (ok 300, octets (9 ∷ []))
decode_varint32-encode_varint32_example =
    decode_varint32-encode_varint32 300 (octets (9 ∷ [])) (omega arith)
