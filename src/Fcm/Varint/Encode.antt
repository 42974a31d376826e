-- ===== src/Fcm/Varint/Encode.antt =====
-- The form of what encodeVarint32 writes.
use mathlib.Core.WellFounded.{Acc}
use google_find_my_tools_go.Prelude.{
  ℕ, zero, suc, ◌+◌, ◌*◌, ◌/◌, ◌%◌, ◌^◌, ◌≤◌, ◌<◌, ◌≡◌, refl, arith,
}
use google_find_my_tools_go.Prelude.{
  List, [], ◌∷◌, ◌++◌, length, All, ◌⊎◌, inl, inr, dec_le, ap, bit_or,
}
use mathlib.Core.Logic.{dif_pos, dif_neg}
use native.Mathlib.Bridge.{le_prop}
use native.Mathlib.Nat.{pow-suc}
use google_find_my_tools_go.Prelude.Bits.{set_top_bit}
use google_find_my_tools_go.Prelude.Order.{lt_wf}
use google_find_my_tools_go.Fcm.Varint.{encode_loop, shrinks, encode_varint32}

-- A byte with the top bit set, after which another follows.
abbrev pub Continues : ℕ → Type 0
Continues b = (128 ≤ b) × (b < 256)

-- The number that groups of seven bits stand for, lowest group first.
unfoldable pub value : List ℕ → ℕ
value [] = 0
value (b ∷ bs) = b % 128 + 128 * value bs

-- At most `k` bytes that continue and one that does not; together they stand for `x`, and no
-- shorter sequence does.
pub record Encoding (k x : ℕ) (bytes : List ℕ) : Type 0 where
  pub front : List ℕ
  pub last : ℕ
  pub shape : bytes ≡ front ++ last ∷ []
  pub continues : All Continues front
  pub ends : last < 128
  pub short : length front ≤ k
  pub means : value (front ++ last ∷ []) ≡ x
  pub minimal : (front ≡ []) ⊎ (0 < last)

-- the last round
one_byte : (k x : ℕ) → x < 128 → Encoding k x (x % 256 ∷ [])
unfolding value
one_byte k x h = record {
  front = [];
  last = x;
  shape = ap (λ t. t ∷ []) (omega arith);
  continues = tt;
  ends = h;
  short = omega arith;
  means = omega arith;
  minimal = inl refl;
}

-- a round that is not the last
one_more :
    (k x : ℕ) (rest : List ℕ)
    → 128 ≤ x
    → Encoding k (x / 128) rest
    → Encoding (suc k) x (bit_or (x % 256) 0x80 ∷ rest)
unfolding value
one_more k x rest big e = record {
  front = byte ∷ e.front;
  last = e.last;
  shape = cc (e.shape);
  continues = (byte_range, e.continues);
  ends = e.ends;
  short = omega (arith, e.short);
  means = omega (arith, e.means, byte_low);
  minimal = inr (last_pos e.front e.last e.minimal e.means);
}
  where
    byte : ℕ
    byte = bit_or (x % 256) 0x80

    byte_range : Continues byte
    byte_range = rw (set_top_bit (x % 256) (omega arith)) (omega arith, omega arith)

    byte_low : byte % 128 ≡ x % 128
    byte_low = rw (set_top_bit (x % 256) (omega arith)) (omega arith)

    last_pos :
        (front : List ℕ) (last : ℕ)
        → (front ≡ []) ⊎ (0 < last)
        → value (front ++ last ∷ []) ≡ x / 128
        → 0 < last
    last_pos [] last m v = omega arith
    last_pos (b ∷ bs) last (inl q) v = cc
    last_pos (b ∷ bs) last (inr q) v = q

encode_loop-Encoding : (k x : ℕ) (w : Acc ◌<◌ x) → x < 128 ^ suc k → Encoding k x (encode_loop x w)
unfolding encode_loop
encode_loop-Encoding zero x (Acc.intro _ smaller) h =
    rw (dif_neg (dec_le 128 x) (omega arith)) (one_byte 0 x (omega arith))
encode_loop-Encoding (suc k) x (Acc.intro _ smaller) h = elim (dec_le 128 x) [
  | yes big ↦ rw (dif_pos (dec_le 128 x) le_prop big) (
      one_more k x _ big (encode_loop-Encoding k (x / 128) (smaller _ (shrinks x big)) (below big)))
  | no small ↦ rw (dif_neg (dec_le 128 x) small) (one_byte (suc k) x (omega arith))
]
  where
    below : 128 ≤ x → x / 128 < 128 ^ suc k
    below big = omega (arith, pow-suc 128 (suc k))

-- encodeVarint32 of a uint32 writes one to five bytes: the top bit is set on all but the last, the
-- groups of seven bits stand for the number, and the last group of a longer encoding is not zero.
pub encode_varint32_form : (x : ℕ) → x < 2 ^ 32 → Encoding 4 x (encode_varint32 x)
unfolding encode_varint32
encode_varint32_form x h = encode_loop-Encoding 4 x (lt_wf.apply x) (omega arith)
