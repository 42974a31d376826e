-- ===== src/Grpc/RoundTrip.antt =====
-- wrap and unwrap are inverse to one another on the frames within the limit.
use google_find_my_tools_go.Prelude.{ℕ, ◌+◌, ◌%◌, ◌^◌, ◌≤◌, ◌<◌, ◌≡◌, arith, ◌∙◌}
use google_find_my_tools_go.Prelude.{
  List, [], ◌∷◌, ◌++◌, length, take, drop, IsBytes, ok, err, some,
}
use google_find_my_tools_go.Prelude.{length-append, take-append, take-append-drop, length-take}
use google_find_my_tools_go.BigEndian.{put_uint32, uint32_of, uint32_of-put_uint32}
use google_find_my_tools_go.BigEndian.{put_uint32-uint32_of}
use google_find_my_tools_go.Grpc.{wrap, unwrap, max_uint32, max_frame_size, over_limit}

-- the frame that wrap returns for a payload that fits the header
abbrev pub frame : List ℕ → List ℕ
frame payload = 0 ∷ put_uint32 (length payload) ++ payload

pub wrap-frame :
    (payload : List ℕ) → length payload ≤ max_uint32 → wrap payload ≡ some (frame payload)
unfolding wrap
wrap-frame payload h = ground arith

pub framed-eq-frame :
    (payload framed : List ℕ)
    → length payload ≤ max_uint32
    → wrap payload ≡ some framed
    → framed ≡ frame payload
framed-eq-frame payload framed h e = cc (wrap-frame payload h)

-- unwrap of a frame whose header is written out
pub unwrap-header :
    (a b c d : ℕ) (rest : List ℕ)
    → uint32_of (a ∷ b ∷ c ∷ d ∷ []) ≤ length rest % 2 ^ 32
    → uint32_of (a ∷ b ∷ c ∷ d ∷ []) ≤ max_frame_size
    → unwrap (0 ∷ a ∷ b ∷ c ∷ d ∷ rest) ≡ ok (take (uint32_of (a ∷ b ∷ c ∷ d ∷ [])) rest)
unfolding unwrap
unwrap-header a b c d rest p q = ground arith

unwrap-frame :
    (payload trailing : List ℕ)
    → length payload ≤ max_frame_size
    → length payload + length trailing < 2 ^ 32
    → unwrap (frame payload ++ trailing) ≡ ok payload
unfolding put_uint32
unwrap-frame payload trailing h room =
    unwrap-header _ _ _ _ (payload ++ trailing)
      (rw (size, length-append payload trailing) (omega arith)) (rw size (omega arith))
    ∙ rw (size, take-append payload trailing)
  where
    size : uint32_of (put_uint32 (length payload)) ≡ length payload
    size = uint32_of-put_uint32 (length payload) (omega arith)

-- A payload of at most 16 MiB is framed, and unwrap reads it back from the frame, whatever
-- follows the frame in the buffer (of less than 4 GiB).
pub unwrap-wrap :
    (payload trailing : List ℕ)
    → length payload ≤ max_frame_size
    → length payload + length trailing < 2 ^ 32
    → (framed : List ℕ) × (wrap payload ≡ some framed) × (unwrap (framed ++ trailing) ≡ ok payload)
unwrap-wrap payload trailing h room =
    (frame payload, wrap-frame payload (omega arith), unwrap-frame payload trailing h room)

-- A payload that wrap frames and that is longer than 16 MiB is refused by unwrap.
pub unwrap_too_large :
    (payload : List ℕ)
    → max_frame_size < length payload
    → length payload ≤ max_uint32
    → (framed : List ℕ) × (wrap payload ≡ some framed)
      × (unwrap framed ≡ err (over_limit (length payload)))
unfolding unwrap put_uint32
unwrap_too_large payload big fits = (
  frame payload,
  wrap-frame payload fits,
  ground (arith, uint32_of-put_uint32 (length payload) (omega arith)),
)

-- What unwrap has checked of a frame that it accepts.
unwrap_checked :
    (flag a b c d : ℕ) (rest payload : List ℕ)
    → unwrap (flag ∷ a ∷ b ∷ c ∷ d ∷ rest) ≡ ok payload
    → (flag ≡ 0)
      × (uint32_of (a ∷ b ∷ c ∷ d ∷ []) ≤ length rest)
      × (uint32_of (a ∷ b ∷ c ∷ d ∷ []) ≤ max_frame_size)
      × (payload ≡ take (uint32_of (a ∷ b ∷ c ∷ d ∷ [])) rest)
unfolding unwrap
unwrap_checked flag a b c d rest payload h = ground arith

frame_front :
    (flag a b c d : ℕ) (rest payload : List ℕ)
    → IsBytes (flag ∷ a ∷ b ∷ c ∷ d ∷ rest)
    → flag ≡ 0
    → length payload ≡ uint32_of (a ∷ b ∷ c ∷ d ∷ [])
    → payload ≡ take (uint32_of (a ∷ b ∷ c ∷ d ∷ [])) rest
    → flag ∷ a ∷ b ∷ c ∷ d ∷ rest ≡ frame payload ++ drop (uint32_of (a ∷ b ∷ c ∷ d ∷ [])) rest
frame_front flag a b c d rest payload bytes zero_flag size cut =
    rw (size, put_uint32-uint32_of a b c d (omega arith))
      (cc (zero_flag, cut, take-append-drop (uint32_of (a ∷ b ∷ c ∷ d ∷ [])) rest))

-- A frame that unwrap accepts begins with the bytes that wrap writes for the payload returned,
-- and that payload has at most 16 MiB.
pub unwrap_sound :
    (framed payload : List ℕ)
    → IsBytes framed
    → unwrap framed ≡ ok payload
    → (length payload ≤ max_frame_size)
      × ((header trailing : List ℕ) × (wrap payload ≡ some header) × (framed ≡ header ++ trailing))
unwrap_sound (flag ∷ a ∷ b ∷ c ∷ d ∷ rest) payload bytes h =
    let n = uint32_of (a ∷ b ∷ c ∷ d ∷ []) in
    let (zero_flag, fits, small, cut) = unwrap_checked flag a b c d rest payload h in
    let size : length payload ≡ n = rw (cut, length-take) (omega arith) in
    (
      omega arith,
      (
        frame payload,
        drop n rest,
        wrap-frame payload (omega arith),
        frame_front flag a b c d rest payload bytes zero_flag size cut,
      ),
    )
unwrap_sound [] payload bytes h = unfold unwrap in cc
unwrap_sound (_ ∷ []) payload bytes h = unfold unwrap in cc
unwrap_sound (_ ∷ _ ∷ []) payload bytes h = unfold unwrap in cc
unwrap_sound (_ ∷ _ ∷ _ ∷ []) payload bytes h = unfold unwrap in cc
unwrap_sound (_ ∷ _ ∷ _ ∷ _ ∷ []) payload bytes h = unfold unwrap in cc
