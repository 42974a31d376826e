-- ===== src/Grpc.antt =====
-- pkg/googlefindmy/grpc/grpc.go: the message framing of the Spot API.
use google_find_my_tools_go.Prelude.{ℕ, ◌-◌, ◌*◌, ◌%◌, ◌^◌, Bool, not, Option, none, some}
use google_find_my_tools_go.Prelude.{List, [], ◌∷◌, ◌++◌, length, take, drop, get_or, ltb, ◌==◌}
use google_find_my_tools_go.Prelude.{Result, ok, err, ◌>>=◌, ◌>>◌, fail_if, wrap_err, if◌then◌else◌}
use google_find_my_tools_go.BigEndian.{put_uint32, uint32_of}
use google_find_my_tools_go.GoErrors.{GoError}
use google_find_my_tools_go.Stream.{Stream, Reads, read_full}
pub mod RoundTrip
pub mod Reader
mod Tests

pub data FrameError : Type 0 where
  too_short : ℕ → FrameError
  compressed : FrameError
  over_limit : ℕ → FrameError
  over_available : ℕ → ℕ → FrameError
  read_header read_body : GoError → FrameError

-- math.MaxUint32 and maxFrameSize
abbrev pub max_uint32 : ℕ
max_uint32 = 2 ^ 32 - 1

abbrev pub max_frame_size : ℕ
max_frame_size = 16 * 2 ^ 20

-- `none` is the panic of a payload whose length does not fit the header.
unfoldable pub wrap : List ℕ → Option (List ℕ)
wrap payload =
    if ltb max_uint32 (length payload)
    then none
    else some (0 ∷ put_uint32 (length payload) ++ payload)

-- The conversion uint32(len(framed)-5) is the remainder modulo 2 ^ 32.
unfoldable pub unwrap : List ℕ → Result FrameError (List ℕ)
unwrap framed = do
  fail_if (ltb (length framed) 5) (too_short (length framed))
  fail_if (not (get_or framed 0 0 == 0)) compressed
  let len = uint32_of (take 4 (drop 1 framed))
  fail_if (ltb max_frame_size len) (over_limit len)
  fail_if (ltb ((length framed - 5) % 2 ^ 32) len) (over_available len (length framed - 5))
  ok (take len (drop 5 framed))

-- ReadFrame after io.ReadFull has filled the header.
read_payload : List ℕ → Stream → Reads FrameError (List ℕ)
read_payload header s =
    let len = uint32_of (take 4 (drop 1 header)) in
    let (body, s') = read_full len s in
    if not (get_or header 0 0 == 0)
    then (err compressed, s)
    else if ltb max_frame_size len
    then (err (over_limit len), s)
    else (wrap_err read_body body, s')

read_after : Reads GoError (List ℕ) → Reads FrameError (List ℕ)
read_after (ok header, s) = read_payload header s
read_after (err e, s) = (err (read_header e), s)

unfoldable pub read_frame : Stream → Reads FrameError (List ℕ)
unfolding read_after read_payload
read_frame s = read_after (read_full 5 s)
