-- ===== src/Fcm/Varint/Decode.antt =====
-- What decodeVarint32 returns on every stream.
use google_find_my_tools_go.Prelude.{
  ℕ, zero, suc, ◌+◌, ◌*◌, ◌%◌, ◌^◌, ◌≤◌, ◌<◌, ◌≡◌, refl, ◌∙◌, ap, arith,
}
use google_find_my_tools_go.Prelude.{List, [], ◌∷◌, ◌++◌, length, All, ok, err, dec_lt, bit_or}
use native.Mathlib.Nat.{mod-eq_of_lt, pow-le-pow_right}
use native.Mathlib.Numerals.{towards_suc}
use google_find_my_tools_go.Prelude.Bits.{low_seven, top_bit, bit_or-shift}
use google_find_my_tools_go.GoErrors.{eof}
use google_find_my_tools_go.Stream.{Stream, octets, octet}
use google_find_my_tools_go.Fcm.Varint.{add_group, decode_loop, decode_varint32, overflow}
use google_find_my_tools_go.Fcm.Varint.Encode.{Continues, value}

group_sum :
    (s r g : ℕ)
    → r < 2 ^ s
    → g * 2 ^ s % 2 ^ 32 ≡ g * 2 ^ s
    → r + g * 2 ^ s < 2 ^ 32
    → bit_or r (g * 2 ^ s % 2 ^ 32) ≡ (r + g * 2 ^ s) % 2 ^ 32
group_sum s r g hr e fits = rw (e, bit_or-shift s r g hr, mod-eq_of_lt fits)

-- Of the fifth group only four bits stay below 2 ^ 32.
fifth_group : (r g : ℕ) → r < 2 ^ 28 → bit_or r (g * 2 ^ 28 % 2 ^ 32) ≡ (r + g * 2 ^ 28) % 2 ^ 32
fifth_group r g hr = rw cut (bit_or-shift 28 r (g % 16) hr ∙ omega arith)
  where
    cut : g * 2 ^ 28 % 2 ^ 32 ≡ g % 16 * 2 ^ 28
    cut = omega arith

-- The or of disjoint bits is a sum.
add_group-eq :
    (j result b : ℕ)
    → j ≤ 4
    → b < 256
    → result < 2 ^ (7 * j)
    → add_group result (7 * j) b ≡ (result + b % 128 * 2 ^ (7 * j)) % 2 ^ 32
add_group-eq zero r b hj hb hr =
    rw (low_seven b hb) (group_sum 0 r (b % 128) hr (omega arith) (omega arith))
add_group-eq (suc zero) r b hj hb hr =
    rw (low_seven b hb) (group_sum 7 r (b % 128) hr (omega arith) (omega arith))
add_group-eq (suc (suc zero)) r b hj hb hr =
    rw (low_seven b hb) (group_sum 14 r (b % 128) hr (omega arith) (omega arith))
add_group-eq (suc (suc (suc zero))) r b hj hb hr =
    rw (low_seven b hb) (group_sum 21 r (b % 128) hr (omega arith) (omega arith))
add_group-eq (suc (suc (suc (suc zero)))) r b hj hb hr =
    rw (low_seven b hb) (fifth_group r (b % 128) hr)
add_group-eq (suc (suc (suc (suc (suc j))))) r b hj hb hr = absurd (omega arith)

-- one round of the loop
last_round :
    (b result shift : ℕ) (s : Stream)
    → b < 128
    → shift < 32
    → decode_loop (octet b ∷ s) result shift ≡ (ok (add_group result shift b), s)
unfolding decode_loop
last_round b result shift s hb hs = ground (arith, top_bit b)

inner_round :
    (b result shift : ℕ) (s : Stream)
    → Continues b
    → shift < 32
    → decode_loop (octet b ∷ s) result shift ≡ decode_loop s (add_group result shift b) (shift + 7)
unfolding decode_loop
inner_round b result shift s hb hs = ground (arith, top_bit b)

sixth_round :
    (b result shift : ℕ) (s : Stream)
    → 32 ≤ shift
    → decode_loop (octet b ∷ s) result shift ≡ (err overflow, s)
unfolding decode_loop
sixth_round b result shift s hs = ground arith

next_shift : (j : ℕ) → 7 * j + 7 ≡ 7 * suc j
next_shift j = omega arith

-- Before the last group nothing is cut off.
inner_group-lt :
    (j result b : ℕ)
    → j ≤ 3
    → result < 2 ^ (7 * j)
    → result + b % 128 * 2 ^ (7 * j) < 2 ^ (7 * suc j)
inner_group-lt zero r b hj hr = omega arith
inner_group-lt (suc zero) r b hj hr = omega arith
inner_group-lt (suc (suc zero)) r b hj hr = omega arith
inner_group-lt (suc (suc (suc zero))) r b hj hr = omega arith
inner_group-lt (suc (suc (suc (suc j)))) r b hj hr = absurd (omega arith)

pow-le : (j : ℕ) → j ≤ 4 → 2 ^ (7 * j) ≤ 2 ^ 28
pow-le j h = pow-le-pow_right (omega arith) {j = 28} (omega arith)

inner_group-eq :
    (j result b : ℕ)
    → j ≤ 3
    → b < 256
    → result < 2 ^ (7 * j)
    → add_group result (7 * j) b ≡ result + b % 128 * 2 ^ (7 * j)
inner_group-eq j r b hj hb hr =
    add_group-eq j r b (omega arith) hb hr
    ∙ mod-eq_of_lt (omega (arith, inner_group-lt j r b hj hr, pow-le (suc j) (omega arith)))

pow_step : (j : ℕ) → 2 ^ (7 * suc j) ≡ 128 * 2 ^ (7 * j)
pow_step j = rw (← next_shift j) (simp towards_suc (omega arith))

-- The groups that are left count from bit 7 * j on.
decode_loop-groups :
    (front : List ℕ) (last j result : ℕ) (s : Stream)
    → All Continues front
    → last < 128
    → j + length front ≤ 4
    → result < 2 ^ (7 * j)
    → decode_loop (octets (front ++ last ∷ []) ++ s) result (7 * j)
      ≡ (ok ((result + value (front ++ last ∷ []) * 2 ^ (7 * j)) % 2 ^ 32), s)
unfolding value
decode_loop-groups [] last j result s hf hl hj hr =
    last_round last result (7 * j) s hl (omega arith)
    ∙ rw (add_group-eq j result last (omega arith) (omega arith) hr, one_value) refl
  where
    one_value : last % 128 + 128 * 0 ≡ last % 128
    one_value = omega arith
decode_loop-groups (b ∷ front) last j result s hf hl hj hr =
    inner_round b result (7 * j) (octets (front ++ last ∷ []) ++ s) hf.0 (omega arith)
    ∙ rw (inner_group-eq j result b (omega arith) hf.0.1 hr, next_shift j)
        (decode_loop-groups front last (suc j) (result + b % 128 * 2 ^ (7 * j)) s hf.1 hl
            (omega arith) (inner_group-lt j result b (omega arith) hr)
          ∙ ap (λ t. (ok (t % 2 ^ 32), s)) sum_eq)
  where
    sum_eq :
        result + b % 128 * 2 ^ (7 * j) + value (front ++ last ∷ []) * 2 ^ (7 * suc j)
        ≡ result + (b % 128 + 128 * value (front ++ last ∷ [])) * 2 ^ (7 * j)
    sum_eq = omega (arith, ap (λ (t : ℕ). value (front ++ last ∷ []) * t) (pow_step j))

-- One to five bytes, of which only the last has its top bit clear, are decoded to the number that
-- their groups of seven bits stand for, modulo 2 ^ 32; what follows them stays in the stream.
pub decode_varint32_groups :
    (front : List ℕ) (last : ℕ) (s : Stream)
    → All Continues front
    → last < 128
    → length front ≤ 4
    → decode_varint32 (octets (front ++ last ∷ []) ++ s)
      ≡ (ok (value (front ++ last ∷ []) % 2 ^ 32), s)
unfolding decode_varint32
decode_varint32_groups front last s hf hl short =
    decode_loop-groups front last 0 0 s hf hl (omega arith) (omega arith)
    ∙ ap (λ t. (ok (t % 2 ^ 32), s)) (omega arith)

-- Bytes that all continue: too many of them, or not enough.
module _ (s : Stream) where
  decode_loop_long :
      (front : List ℕ) (b result shift : ℕ)
      → All Continues front
      → shift + 7 * length front ≡ 35
      → decode_loop (octets (front ++ b ∷ []) ++ s) result shift ≡ (err overflow, s)
  decode_loop_long [] b result shift hf h = sixth_round b result shift s (omega arith)
  decode_loop_long (c ∷ front) b result shift hf h = elim (dec_lt shift 32) [
    | yes below ↦
        inner_round c result shift (octets (front ++ b ∷ []) ++ s) hf.0 below
        ∙ decode_loop_long front b (add_group result shift c) (shift + 7) hf.1 (omega arith)
    | no above ↦ absurd (omega arith)
  ]

decode_loop_cut :
    (front : List ℕ) (result shift : ℕ)
    → All Continues front
    → shift + 7 * length front ≤ 35
    → decode_loop (octets front) result shift ≡ (err eof, [])
decode_loop_cut [] result shift hf h = unfold decode_loop in refl
decode_loop_cut (c ∷ front) result shift hf h =
    inner_round c result shift (octets front) hf.0 (omega arith)
    ∙ decode_loop_cut front (add_group result shift c) (shift + 7) hf.1 (omega arith)

-- After five bytes that continue, a sixth byte of any value is read and refused as an overflow; a
-- stream that ends after at most five bytes that continue gives io.EOF.
pub decode_varint32_errors :
    (long short : List ℕ) (b : ℕ) (s : Stream)
    → All Continues long
    → length long ≡ 5
    → All Continues short
    → length short ≤ 5
    → (decode_varint32 (octets (long ++ b ∷ []) ++ s) ≡ (err overflow, s))
      × (decode_varint32 (octets short) ≡ (err eof, []))
unfolding decode_varint32
decode_varint32_errors long short b s hl five hs small =
    (decode_loop_long s long b 0 0 hl (omega arith), decode_loop_cut short 0 0 hs (omega arith))
