-- ===== src/Auth/Gpsoauth/Answer.antt =====
-- The reading of an answer of Google's auth endpoint: lines of a key and a value.
use google_find_my_tools_go.Prelude.{
  ℕ, ◌≡◌, refl, ap, ◌∙◌, Bool, true, false, not, ◌||◌, List, [], ◌∷◌, ◌++◌, some, ◌==◌, ok, All,
  arith, append_assoc, append-nil,
}
use google_find_my_tools_go.Bytes.{is_empty}
use google_find_my_tools_go.Text.{split_onto, cut}
use google_find_my_tools_go.Url.{
  Values, query_unescape, unescape_loop, has_semicolon, unescaped_pair, parse_parts, parse_query,
  get_value,
}
use google_find_my_tools_go.Auth.Gpsoauth.{lines_to_parts, parse_answer, answer_value}

-- A byte that url.ParseQuery and the splitting of lines leave alone.
unfoldable pub is_plain : ℕ → Bool
is_plain c = not (c == b'&' || c == b';' || c == b'%' || c == b'+' || c == b'\n')

abbrev pub PlainByte : ℕ → Type 0
PlainByte c = is_plain c ≡ true

abbrev pub KeyByte : ℕ → Type 0
KeyByte c = (is_plain c ≡ true) × ((c == b'=') ≡ false)

-- An entry with plain bytes alone, and no equals sign in its key.
abbrev pub PlainEntry : List ℕ × List ℕ → Type 0
PlainEntry e = All KeyByte e.0 × All PlainByte e.1

-- An answer with a line for each entry.
unfoldable pub render_lines : Values → List ℕ
render_lines [] = []
render_lines ((key, value) ∷ entries) = (key ++ b'=' ∷ value) ++ b'\n' ∷ render_lines entries

KeyByte-All : (key : List ℕ) → All KeyByte key → All PlainByte key
KeyByte-All [] h = tt
KeyByte-All (c ∷ key) h = (h.0.0, KeyByte-All key h.1)

-- The line breaks become separators.
lines_to_parts-plain :
    (s t : List ℕ) → All PlainByte s → lines_to_parts (s ++ t) ≡ s ++ lines_to_parts t
unfolding lines_to_parts is_plain
lines_to_parts-plain [] t h = refl
lines_to_parts-plain (c ∷ s) t h = ground (arith, lines_to_parts-plain s t)

not_separator : (c : ℕ) → PlainByte c → (c == b'&') ≡ false
unfolding is_plain
not_separator c h = ground arith

split_onto-plain :
    (part s t : List ℕ)
    → All PlainByte s
    → split_onto b'&' part (s ++ t) ≡ split_onto b'&' (part ++ s) t
unfolding split_onto
split_onto-plain part [] t h = rw (append-nil part) refl
split_onto-plain part (c ∷ s) t h = rw (not_separator c h.0) (
    split_onto-plain (part ++ c ∷ []) s t h.1
    ∙ ap (λ p. split_onto b'&' p t) (append_assoc part (c ∷ []) s))

cut-key :
    (key value : List ℕ) → All KeyByte key → cut b'=' (key ++ b'=' ∷ value) ≡ some (key, value)
unfolding cut
cut-key [] value h = refl
cut-key (c ∷ key) value h = rw (h.0.1, cut-key key value h.1) refl

unescape_loop-plain : (s : List ℕ) → All PlainByte s → unescape_loop 0 s ≡ some s
unfolding unescape_loop is_plain
unescape_loop-plain [] h = refl
unescape_loop-plain (c ∷ s) h = ground (arith, unescape_loop-plain s)

has_semicolon-plain : (s t : List ℕ) → All PlainByte s → has_semicolon (s ++ t) ≡ has_semicolon t
unfolding has_semicolon is_plain
has_semicolon-plain [] t h = refl
has_semicolon-plain (c ∷ s) t h = ground (arith, has_semicolon-plain s t)

line-All :
    (key value : List ℕ)
    → All KeyByte key
    → All PlainByte value
    → All PlainByte (key ++ b'=' ∷ value)
unfolding is_plain
line-All [] value h k = (refl, k)
line-All (c ∷ key) value h k = (h.0.0, line-All key value h.1 k)

line-filled : (key value : List ℕ) → is_empty (key ++ b'=' ∷ value) ≡ false
line-filled [] value = refl
line-filled (c ∷ key) value = refl

no_semicolon : (s : List ℕ) → All PlainByte s → has_semicolon s ≡ false
unfolding has_semicolon is_plain
no_semicolon [] h = refl
no_semicolon (c ∷ s) h = ground (arith, no_semicolon s)

parse_parts-line :
    (key value : List ℕ) (parts : List (List ℕ))
    → PlainEntry (key, value)
    → parse_parts ((key ++ b'=' ∷ value) ∷ parts)
      ≡ unescaped_pair (some key) (some value) (parse_parts parts)
unfolding parse_parts query_unescape
parse_parts-line key value parts (k, v) =
    rw
      (
        line-filled key value,
        no_semicolon (key ++ b'=' ∷ value) (line-All key value k v),
        cut-key key value k,
        unescape_loop-plain key (KeyByte-All key k),
        unescape_loop-plain value v,
      )
      refl

split-line :
    (s t : List ℕ) → All PlainByte s → split_onto b'&' [] (s ++ b'&' ∷ t) ≡ s ∷ split_onto b'&' [] t
unfolding split_onto
split-line s t h = split_onto-plain [] s (b'&' ∷ t) h

parse_parts-render_lines :
    (entries : Values)
    → All PlainEntry entries
    → parse_parts (split_onto b'&' [] (lines_to_parts (render_lines entries))) ≡ some entries
unfolding render_lines lines_to_parts split_onto parse_parts
parse_parts-render_lines [] h = refl
parse_parts-render_lines ((key, value) ∷ entries) ((k, v), h) =
    let s = key ++ b'=' ∷ value in
    let plain = line-All key value k v in
    ap (λ t. parse_parts (split_onto b'&' [] t))
      (lines_to_parts-plain s (b'\n' ∷ render_lines entries) plain)
    ∙ (ap parse_parts (split-line s (lines_to_parts (render_lines entries)) plain)
        ∙ (parse_parts-line key value (split_onto b'&' [] (lines_to_parts (render_lines entries)))
              (k, v)
            ∙ ap (unescaped_pair (some key) (some value)) (parse_parts-render_lines entries h)))

-- An answer in which every key and value is made of bytes other than & ; % + and line breaks, with
-- no equals sign in a key, is read line by line: the value of a key is the first one that its lines
-- give, equals signs included, unless that is empty.
pub answer_value-render_lines :
    (entries : Values) (key : List ℕ)
    → All PlainEntry entries
    → is_empty (get_value key entries) ≡ false
    → answer_value key (render_lines entries) ≡ ok (get_value key entries)
unfolding answer_value parse_answer parse_query
answer_value-render_lines entries key h full = rw (parse_parts-render_lines entries h, full) refl
