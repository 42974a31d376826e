-- ===== src/Grpc/Reader.antt =====
-- read_frame against unwrap: the same frames, taken from a stream.
use google_find_my_tools_go.Prelude.{ℕ, ◌+◌, ◌≤◌, ◌<◌, ◌≡◌, refl, arith, ◌∙◌}
use google_find_my_tools_go.Prelude.{List, [], ◌∷◌, ◌++◌, length, ok, err, some}
use google_find_my_tools_go.Prelude.{take-length}
use google_find_my_tools_go.BigEndian.{put_uint32, uint32_of, uint32_of-put_uint32}
use google_find_my_tools_go.GoErrors.{GoError, eof, unexpected_eof}
use google_find_my_tools_go.Stream.{Stream, Reads, octets, read_full}
use google_find_my_tools_go.Stream.Laws.{read_full-octets, read_full_took, read_full_short}
use google_find_my_tools_go.Grpc.{
  wrap, unwrap, read_frame, read_after, read_payload, max_frame_size, read_header, read_body,
}
use google_find_my_tools_go.Grpc.RoundTrip.{framed-eq-frame, unwrap-header}

-- read_payload on a header that it accepts
read_payload-header :
    (a b c d : ℕ) (body : List ℕ) (s : Stream)
    → uint32_of (a ∷ b ∷ c ∷ d ∷ []) ≡ length body
    → length body ≤ max_frame_size
    → read_payload (0 ∷ a ∷ b ∷ c ∷ d ∷ []) (octets body ++ s) ≡ (ok body, s)
unfolding read_payload
read_payload-header a b c d body s size h = rw (size, read_full-octets body s) (ground arith)

-- ReadFrame takes one frame from a stream and nothing of what follows it: it returns the payload
-- (of at most 16 MiB) that wrap framed, and leaves the rest of the stream unread.
pub read_frame-wrap :
    (payload framed : List ℕ) (s : Stream)
    → length payload ≤ max_frame_size
    → wrap payload ≡ some framed
    → read_frame (octets framed ++ s) ≡ (ok payload, s)
unfolding read_frame put_uint32 read_full
read_frame-wrap payload framed s h e =
    rw (framed-eq-frame payload framed (omega arith) e) (
      read_payload-header _ _ _ _ payload s (uint32_of-put_uint32 (length payload) (omega arith)) h)

-- What read_payload has checked when it returns a payload.
read_payload_checked :
    (flag a b c d : ℕ) (payload : List ℕ) (s s' : Stream)
    → read_payload (flag ∷ a ∷ b ∷ c ∷ d ∷ []) s ≡ (ok payload, s')
    → (flag ≡ 0)
      × (uint32_of (a ∷ b ∷ c ∷ d ∷ []) ≤ max_frame_size)
      × (read_full (uint32_of (a ∷ b ∷ c ∷ d ∷ [])) s ≡ (ok payload, s'))
unfolding read_payload
read_payload_checked flag a b c d payload s s' h = ground arith

unwrap-header_exact :
    (flag a b c d : ℕ) (payload : List ℕ)
    → flag ≡ 0
    → uint32_of (a ∷ b ∷ c ∷ d ∷ []) ≤ max_frame_size
    → length payload ≡ uint32_of (a ∷ b ∷ c ∷ d ∷ [])
    → unwrap (flag ∷ a ∷ b ∷ c ∷ d ∷ payload) ≡ ok payload
unwrap-header_exact flag a b c d payload zero_flag small size =
    rw zero_flag
      (unwrap-header a b c d payload (rw (← size) (omega arith)) small ∙ rw (← size, take-length))

-- A frame read from the stream `s`, which begins with its bytes and goes on with `s'`.
abbrev Taken : Stream → Stream → List ℕ → Type 0
Taken s s' payload =
    (framed : List ℕ) × (s ≡ octets framed ++ s')
    × (length framed ≡ 5 + length payload)
    × (unwrap framed ≡ ok payload)

read_payload_sound :
    (header payload : List ℕ) (s s' : Stream)
    → length header ≡ 5
    → read_payload header s ≡ (ok payload, s')
    → Taken (octets header ++ s) s' payload
read_payload_sound (flag ∷ a ∷ b ∷ c ∷ d ∷ []) payload s s' five h =
    let (zero_flag, small, read) = read_payload_checked flag a b c d payload s s' h in
    let (front, size) = read_full_took _ s s' payload read in
    (
      flag ∷ a ∷ b ∷ c ∷ d ∷ payload,
      cc front,
      omega arith,
      unwrap-header_exact flag a b c d payload zero_flag small size,
    )
read_payload_sound (_ ∷ _ ∷ _ ∷ _ ∷ _ ∷ _ ∷ _) payload s s' five h = absurd (omega arith)
read_payload_sound _ payload s s' five h = absurd (omega arith)

read_after_sound :
    (s s' : Stream) (payload : List ℕ) (r : Reads GoError (List ℕ))
    → read_full 5 s ≡ r
    → read_after r ≡ (ok payload, s')
    → Taken s s' payload
unfolding read_after
read_after_sound s s' payload (ok header, t) e h =
    let (front, five) = read_full_took 5 s t header e in
    rw front (read_payload_sound header payload t s' five h)
read_after_sound s s' payload (err x, t) e h = cc

-- What ReadFrame returns, unwrap returns on the bytes that ReadFrame took from the stream: the
-- five bytes of the header and those of the payload.
pub read_frame_sound :
    (s s' : Stream) (payload : List ℕ)
    → read_frame s ≡ (ok payload, s')
    → (framed : List ℕ) × (s ≡ octets framed ++ s')
      × (length framed ≡ 5 + length payload)
      × (unwrap framed ≡ ok payload)
unfolding read_frame
read_frame_sound s s' payload h = read_after_sound s s' payload (read_full 5 s) refl h

read_payload_cut :
    (a b c d n x : ℕ) (front : List ℕ)
    → uint32_of (a ∷ b ∷ c ∷ d ∷ []) ≡ n
    → n ≤ max_frame_size
    → length (x ∷ front) < n
    → read_payload (0 ∷ a ∷ b ∷ c ∷ d ∷ []) (octets (x ∷ front))
      ≡ (err (read_body unexpected_eof), [])
unfolding read_payload
read_payload_cut a b c d n x front size small h =
    rw (size, read_full_short n x front h) (ground arith)

-- A stream that ends before the first byte of a frame, inside its header, or inside the payload
-- (of at most 16 MiB) that the header announces, gives the error of the read that met the end, and
-- nothing is left of the stream.
pub read_frame_truncated :
    (b x n : ℕ) (bs front : List ℕ)
    → length (b ∷ bs) < 5
    → length (x ∷ front) < n
    → n ≤ max_frame_size
    → (read_frame [] ≡ (err (read_header eof), []))
      × (read_frame (octets (b ∷ bs)) ≡ (err (read_header unexpected_eof), []))
      × (read_frame (octets (0 ∷ put_uint32 n ++ (x ∷ front)))
          ≡ (err (read_body unexpected_eof), []))
unfolding read_frame put_uint32 read_full
read_frame_truncated b x n bs front h short small = (
  refl,
  rw (read_full_short 5 b bs h),
  read_payload_cut _ _ _ _ n x front (uint32_of-put_uint32 n (omega arith)) small short,
)
