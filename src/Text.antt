-- ===== src/Text.antt =====
-- What the source uses of Go's strings package on texts, which are lists of their bytes (UTF-8).
use google_find_my_tools_go.Prelude.{
  ℕ, zero, suc, ◌+◌, ◌-◌, Bool, ◌&&◌, ◌||◌, List, [], ◌∷◌, ◌++◌, map,
}
use google_find_my_tools_go.Prelude.{Option, none, some, length, drop, leb, ◌==◌, if◌then◌else◌}
use google_find_my_tools_go.Bytes.{has_prefix, bytes_eq}

abbrev pub reverse_onto : List ℕ → List ℕ → List ℕ
reverse_onto [] out = out
reverse_onto (b ∷ bs) out = reverse_onto bs (b ∷ out)

abbrev pub reverse : List ℕ → List ℕ
reverse s = reverse_onto s []

-- unicode.IsSpace: the encodings of the white space of Unicode.
abbrev pub spaces : List (List ℕ)
spaces =
    (9 ∷ [])
    ∷ (10 ∷ [])
    ∷ (11 ∷ [])
    ∷ (12 ∷ [])
    ∷ (13 ∷ [])
    ∷ (32 ∷ [])
    ∷ (0xc2 ∷ 0x85 ∷ [])
    ∷ (0xc2 ∷ 0xa0 ∷ [])
    ∷ (0xe1 ∷ 0x9a ∷ 0x80 ∷ [])
    ∷ (0xe2 ∷ 0x80 ∷ 0x80 ∷ [])
    ∷ (0xe2 ∷ 0x80 ∷ 0x81 ∷ [])
    ∷ (0xe2 ∷ 0x80 ∷ 0x82 ∷ [])
    ∷ (0xe2 ∷ 0x80 ∷ 0x83 ∷ [])
    ∷ (0xe2 ∷ 0x80 ∷ 0x84 ∷ [])
    ∷ (0xe2 ∷ 0x80 ∷ 0x85 ∷ [])
    ∷ (0xe2 ∷ 0x80 ∷ 0x86 ∷ [])
    ∷ (0xe2 ∷ 0x80 ∷ 0x87 ∷ [])
    ∷ (0xe2 ∷ 0x80 ∷ 0x88 ∷ [])
    ∷ (0xe2 ∷ 0x80 ∷ 0x89 ∷ [])
    ∷ (0xe2 ∷ 0x80 ∷ 0x8a ∷ [])
    ∷ (0xe2 ∷ 0x80 ∷ 0xa8 ∷ [])
    ∷ (0xe2 ∷ 0x80 ∷ 0xa9 ∷ [])
    ∷ (0xe2 ∷ 0x80 ∷ 0xaf ∷ [])
    ∷ (0xe2 ∷ 0x81 ∷ 0x9f ∷ [])
    ∷ (0xe3 ∷ 0x80 ∷ 0x80 ∷ [])
    ∷ []

-- How many bytes the space at the front has: 0 if there is none.
unfoldable pub space_width : List (List ℕ) → List ℕ → ℕ
space_width [] s = 0
space_width (w ∷ ws) s = let rest = space_width ws s in if has_prefix s w then length w else rest

-- Spaces are taken off the front; `skip` bytes of the last one are still to go.
unfoldable pub trim_loop : List (List ℕ) → ℕ → List ℕ → List ℕ
unfolding space_width
trim_loop ws skip [] = []
trim_loop ws (suc skip) (b ∷ s) = trim_loop ws skip s
trim_loop ws zero (b ∷ s) =
    let width = space_width ws (b ∷ s) in
    let rest = trim_loop ws (width - 1) s in if width == 0 then b ∷ s else rest

unfoldable pub trim_left : List ℕ → List ℕ
unfolding trim_loop
trim_left s = trim_loop spaces 0 s

unfoldable pub trim_right : List ℕ → List ℕ
unfolding trim_loop
trim_right s = reverse (trim_loop (map reverse spaces) 0 (reverse s))

-- strings.TrimSpace
unfoldable pub trim_space : List ℕ → List ℕ
unfolding trim_left trim_right
trim_space s = trim_right (trim_left s)

-- strings.Split(s, sep) for a separator of one byte: `part` has the bytes since the last one.
unfoldable pub split_onto : ℕ → List ℕ → List ℕ → List (List ℕ)
split_onto sep part [] = part ∷ []
split_onto sep part (b ∷ s) =
    let next = split_onto sep [] s in
    let more = split_onto sep (part ++ b ∷ []) s in if b == sep then part ∷ next else more

abbrev pub split : ℕ → List ℕ → List (List ℕ)
split sep s = split_onto sep [] s

abbrev pub cut_cons : ℕ → Option (List ℕ × List ℕ) → Option (List ℕ × List ℕ)
cut_cons b none = none
cut_cons b (some (before, after)) = some (b ∷ before, after)

-- strings.SplitN(s, sep, 2) for a separator of one byte: what stands before the first separator
-- and what stands behind it, if there is one.
unfoldable pub cut : ℕ → List ℕ → Option (List ℕ × List ℕ)
cut sep [] = none
cut sep (b ∷ s) = let rest = cut sep s in if b == sep then some ([], s) else cut_cons b rest

-- strings.Contains and strings.HasSuffix
unfoldable pub contains : List ℕ → List ℕ → Bool
contains [] sub = has_prefix [] sub
contains (b ∷ s) sub = has_prefix (b ∷ s) sub || contains s sub

unfoldable pub has_suffix : List ℕ → List ℕ → Bool
has_suffix s suffix =
    leb (length suffix) (length s) && bytes_eq (drop (length s - length suffix) s) suffix

-- strings.Count(s, b) for a byte
unfoldable pub count_byte : ℕ → List ℕ → ℕ
count_byte b [] = 0
count_byte b (c ∷ s) = (if c == b then 1 else 0) + count_byte b s

-- strings.ToLower on the ASCII letters. No other letter becomes a hexadecimal digit, a colon or a
-- space, so a fingerprint with one is refused either way.
unfoldable pub to_lower : ℕ → ℕ
to_lower c = if leb b'A' c && leb c b'Z' then c + 32 else c
