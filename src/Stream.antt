-- ===== src/Stream.antt =====
-- io.Reader and io.ReadFull, as the source uses them (grpc.ReadFrame, MCSClient.readMsg).
-- What a peer will send is a list of arrivals: a byte, or an error that a read meets at that point.
-- Past the end of the list every read meets io.EOF. A reader is a function of the arrivals still
-- to come, and returns those that it leaves.
pub mod Laws
use google_find_my_tools_go.GoErrors.{GoError, eof, unexpected_eof}
use google_find_my_tools_go.Prelude.{ℕ, zero, suc, List, [], ◌∷◌, map, Result, ok, err, wrap_err}

pub data Arrival : Type 0 where
  octet : ℕ → Arrival
  fault : GoError → Arrival

abbrev pub Stream : Type 0
Stream = List Arrival

-- A reader's result and the arrivals that it has not consumed.
abbrev pub Reads {ℓ κ} : Type ℓ → Type κ → Type (ℓ ⊔ κ)
Reads E A = Result E A × Stream

-- Bytes with no error between them.
abbrev pub octets : List ℕ → Stream
octets = map octet

-- io.EOF becomes io.ErrUnexpectedEOF once a byte has been read; other errors pass unchanged.
abbrev pub mid_error : GoError → GoError
mid_error eof = unexpected_eof
mid_error e = e

abbrev pub after_byte : ℕ → Reads GoError (List ℕ) → Reads GoError (List ℕ)
after_byte b (ok bs, s) = (ok (b ∷ bs), s)
after_byte b (err e, s) = (err (mid_error e), s)

-- io.ReadFull into a buffer of `n` bytes.
unfoldable pub read_full : ℕ → Stream → Reads GoError (List ℕ)
read_full zero s = (ok [], s)
read_full (suc n) [] = (err eof, [])
read_full (suc n) (fault e ∷ s) = (err e, s)
read_full (suc n) (octet b ∷ s) = after_byte b (read_full n s)

-- A reader of push.go: a function of the arrivals to come. `do` chains readers.
abbrev pub Reader {ℓ} : Type ℓ → Type ℓ
Reader A = Stream → Reads GoError A

abbrev pub and_then {ℓ κ} :
    {A : Type ℓ} {B : Type κ} → Reads GoError A → (A → Reader B) → Reads GoError B
and_then (ok a, s) f = f a s
and_then (err e, s) f = (err e, s)

infixl 5 ◌>>=◌ ◌>>◌
abbrev pub ◌>>=◌ {ℓ κ} : {A : Type ℓ} {B : Type κ} → Reader A → (A → Reader B) → Reader B
◌>>=◌ m f s = and_then (m s) f

abbrev pub ◌>>◌ {ℓ} : {B : Type ℓ} → Reader (Unit {0}) → Reader B → Reader B
m >> k = m >>= λ _. k

-- A result that reads nothing; and a reader whose error is wrapped.
abbrev pub lift {ℓ} : {A : Type ℓ} → Result GoError A → Reader A
lift r s = (r, s)

abbrev pub wrap_read {ℓ} : {A : Type ℓ} → (GoError → GoError) → Reader A → Reader A
wrap_read f m s = let (r, s') = m s in (wrap_err f r, s')
