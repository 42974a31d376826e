-- ===== src/Grpc/Tests.antt =====
-- Runs of the framing, and its theorems at concrete frames.
use google_find_my_tools_go.Prelude.{ℕ, ◌≡◌, refl, arith, List, [], ◌∷◌, ◌++◌}
use google_find_my_tools_go.Prelude.{ok, err, some}
use google_find_my_tools_go.BigEndian.{put_uint32, uint32_of}
use google_find_my_tools_go.Stream.{octets, read_full}
use google_find_my_tools_go.Grpc.{wrap, unwrap, read_frame, compressed, too_short}
use google_find_my_tools_go.Grpc.{over_available}
use google_find_my_tools_go.Grpc.RoundTrip.{unwrap-wrap}

abbrev hello : List ℕ
hello = 0 ∷ 0 ∷ 0 ∷ 0 ∷ 3 ∷ 7 ∷ 8 ∷ 9 ∷ []

wrap_small : wrap (7 ∷ 8 ∷ 9 ∷ []) ≡ some hello
unfolding wrap put_uint32
wrap_small = refl

unwrap_small : unwrap (hello ++ 1 ∷ []) ≡ ok (7 ∷ 8 ∷ 9 ∷ [])
unfolding unwrap uint32_of
unwrap_small = refl

unwrap_compressed : unwrap (1 ∷ 0 ∷ 0 ∷ 0 ∷ 0 ∷ []) ≡ err compressed
unfolding unwrap uint32_of
unwrap_compressed = refl

unwrap_cut : unwrap (0 ∷ 0 ∷ 0 ∷ 0 ∷ 2 ∷ 7 ∷ []) ≡ err (over_available 2 1)
unfolding unwrap uint32_of
unwrap_cut = refl

unwrap_short : unwrap (0 ∷ 0 ∷ []) ≡ err (too_short 2)
unfolding unwrap uint32_of
unwrap_short = refl

read_small : read_frame (octets (hello ++ 1 ∷ [])) ≡ (ok (7 ∷ 8 ∷ 9 ∷ []), octets (1 ∷ []))
unfolding read_frame uint32_of read_full
read_small = refl

unwrap-wrap_example :
    (framed : List ℕ) × (wrap (7 ∷ 8 ∷ 9 ∷ []) ≡ some framed)
    × (unwrap (framed ++ 1 ∷ []) ≡ ok (7 ∷ 8 ∷ 9 ∷ []))
unwrap-wrap_example = unwrap-wrap (7 ∷ 8 ∷ 9 ∷ []) (1 ∷ []) (omega arith) (omega arith)
