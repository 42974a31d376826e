-- ===== src/Stream/Laws.antt =====
-- What io.ReadFull returns: the bytes asked for, or an error that says how far it came.
use google_find_my_tools_go.Prelude.{ℕ, zero, suc, ◌<◌, ◌≡◌, refl, arith}
use google_find_my_tools_go.Prelude.{List, [], ◌∷◌, ◌++◌, length, ok, err}
use google_find_my_tools_go.GoErrors.{GoError, unexpected_eof}
use google_find_my_tools_go.Stream.{Stream, Reads, octet, fault}
use google_find_my_tools_go.Stream.{octets, after_byte, read_full}

-- A read of as many bytes as come first returns exactly these, and leaves what follows.
pub read_full-octets :
    (bs : List ℕ) (s : Stream) → read_full (length bs) (octets bs ++ s) ≡ (ok bs, s)
unfolding read_full
read_full-octets [] s = refl
read_full-octets (b ∷ bs) s = rw (read_full-octets bs s)

-- Fewer bytes than asked for, and then the end.
pub read_full_short :
    (n : ℕ) (b : ℕ) (bs : List ℕ)
    → length (b ∷ bs) < n
    → read_full n (octets (b ∷ bs)) ≡ (err unexpected_eof, [])
unfolding read_full
read_full_short zero b bs h = absurd (omega arith)
read_full_short (suc zero) b bs h = absurd (omega arith)
read_full_short (suc (suc n)) b [] h = refl
read_full_short (suc (suc n)) b (c ∷ bs) h = rw (read_full_short (suc n) c bs (omega arith))

after_byte-ok :
    (b : ℕ) (r : Reads GoError (List ℕ)) (bs : List ℕ) (s : Stream)
    → after_byte b r ≡ (ok bs, s)
    → (cs : List ℕ) × (r ≡ (ok cs, s)) × (bs ≡ b ∷ cs)
after_byte-ok b (ok cs, t) bs s q = (cs, ground arith, ground arith)
after_byte-ok b (err e, t) bs s q = cc

-- A read that succeeds took the bytes that it returns from the front of the stream.
pub read_full_took :
    (n : ℕ) (s s' : Stream) (bs : List ℕ)
    → read_full n s ≡ (ok bs, s')
    → (s ≡ octets bs ++ s') × (length bs ≡ n)
unfolding read_full
read_full_took zero s s' bs h = ground arith
read_full_took (suc n) [] s' bs h = cc
read_full_took (suc n) (fault e ∷ s) s' bs h = cc
read_full_took (suc n) (octet b ∷ s) s' bs h =
    let (cs, e, q) = after_byte-ok b (read_full n s) bs s' h in
    ground (arith, e, q, read_full_took n s s' cs e)
