-- ===== src/Url.antt =====
-- net/url's query escaping and parsing, as the source uses them on forms and on answers.
use google_find_my_tools_go.Prelude.{
  ℕ, zero, suc, ◌+◌, ◌-◌, ◌*◌, ◌/◌, ◌%◌, Bool, false, ◌&&◌, ◌||◌, List, [], ◌∷◌, ◌++◌, leb, ltb,
  ◌==◌, if◌then◌else◌,
}
use google_find_my_tools_go.Prelude.{Option, none, some}
use google_find_my_tools_go.Bytes.{bytes_eq, is_empty}
use google_find_my_tools_go.Text.{split, cut}

-- The bytes that stay: letters, digits and -_.~
unfoldable pub stays : ℕ → Bool
stays c =
    leb b'a' c && leb c b'z'
    || leb b'A' c && leb c b'Z'
    || leb b'0' c && leb c b'9'
    || c == b'-'
    || c == b'_'
    || c == b'.'
    || c == b'~'

abbrev pub upper_hex : ℕ → ℕ
upper_hex d = if ltb d 10 then d + b'0' else d - 10 + b'A'

-- url.QueryEscape
unfoldable pub query_escape : List ℕ → List ℕ
unfolding stays
query_escape [] = []
query_escape (c ∷ s) =
    let rest = query_escape s in
    if stays c
    then c ∷ rest
    else if c == b' '
    then b'+' ∷ rest
    else b'%' ∷ upper_hex (c / 16) ∷ upper_hex (c % 16) ∷ rest

-- key=value&... of url.Values.Encode for entries in the order of their keys.
unfoldable pub encode_entry : List ℕ × List ℕ → List ℕ
unfolding query_escape
encode_entry (key, value) = query_escape key ++ b'=' ∷ query_escape value

unfoldable pub encode_values : List (List ℕ × List ℕ) → List ℕ
unfolding encode_entry
encode_values [] = []
encode_values (e ∷ []) = encode_entry e
encode_values (e ∷ f ∷ es) = encode_entry e ++ b'&' ∷ encode_values (f ∷ es)

-- The value of a hexadecimal digit.
unfoldable pub hex_value : ℕ → Option ℕ
hex_value c =
    if leb b'0' c && leb c b'9'
    then some (c - b'0')
    else if leb b'a' c && leb c b'f'
    then some (c - b'a' + 10)
    else if leb b'A' c && leb c b'F'
    then some (c - b'A' + 10)
    else none

abbrev pub cons_option : ℕ → Option (List ℕ) → Option (List ℕ)
cons_option c none = none
cons_option c (some s) = some (c ∷ s)

abbrev pub hex_pair : Option ℕ → Option ℕ → Option (List ℕ) → Option (List ℕ)
hex_pair none low rest = none
hex_pair (some high) none rest = none
hex_pair (some high) (some low) rest = cons_option (high * 16 + low) rest

-- Two hexadecimal digits in front of a text whose rest is unescaped already.
abbrev pub hex_escape : List ℕ → Option (List ℕ) → Option (List ℕ)
hex_escape [] rest = none
hex_escape (h ∷ []) rest = none
hex_escape (h ∷ l ∷ s) rest = hex_pair (hex_value h) (hex_value l) rest

-- url.QueryUnescape, `none` on an error: `skip` bytes of an escape are still to go.
unfoldable pub unescape_loop : ℕ → List ℕ → Option (List ℕ)
unfolding hex_value
unescape_loop skip [] = some []
unescape_loop (suc skip) (c ∷ s) = unescape_loop skip s
unescape_loop zero (c ∷ s) =
    let after_escape = unescape_loop 2 s in
    let rest = unescape_loop 0 s in
    if c == b'%'
    then hex_escape s after_escape
    else if c == b'+'
    then cons_option b' ' rest
    else cons_option c rest

unfoldable pub query_unescape : List ℕ → Option (List ℕ)
unfolding unescape_loop
query_unescape s = unescape_loop 0 s

abbrev pub Values : Type 0
Values = List (List ℕ × List ℕ)

unfoldable pub has_semicolon : List ℕ → Bool
has_semicolon [] = false
has_semicolon (c ∷ s) = c == b';' || has_semicolon s

abbrev pub unescaped_pair : Option (List ℕ) → Option (List ℕ) → Option Values → Option Values
unescaped_pair none value rest = none
unescaped_pair (some key) none rest = none
unescaped_pair (some key) (some value) none = none
unescaped_pair (some key) (some value) (some entries) = some ((key, value) ∷ entries)

-- The key and the value of a part, which has no value without an equals sign.
abbrev pub part_pair : List ℕ → Option (List ℕ × List ℕ) → Option Values → Option Values
part_pair part none rest = unescaped_pair (query_unescape part) (some []) rest
part_pair part (some (key, value)) rest =
    unescaped_pair (query_unescape key) (query_unescape value) rest

unfoldable pub parse_parts : List (List ℕ) → Option Values
unfolding query_unescape has_semicolon
parse_parts [] = some []
parse_parts (part ∷ parts) =
    let rest = parse_parts parts in
    if is_empty part
    then rest
    else if has_semicolon part
    then none
    else part_pair part (cut b'=' part) rest

-- url.ParseQuery, `none` on an error.
unfoldable pub parse_query : List ℕ → Option Values
unfolding parse_parts
parse_query s = parse_parts (split b'&' s)

-- Values.Get: the first value of a key, or the empty text.
unfoldable pub get_value : List ℕ → Values → List ℕ
get_value key [] = []
get_value key ((k, v) ∷ entries) =
    let rest = get_value key entries in if bytes_eq key k then v else rest
