-- ===== src/Maps/SavedPlaces/Specs.antt =====
-- ParseListSpecs and extractListID of pkg/googlefindmy/maps/savedplaces/savedplaces.go. A string is
-- the list of its bytes; net/url's Parse is a parameter.
use google_find_my_tools_go.Prelude.{
  ℕ, zero, suc, ◌+◌, Bool, true, false, not, ◌&&◌, ◌||◌, List, [], ◌∷◌, ◌++◌,
}
use google_find_my_tools_go.Prelude.{
  Option, none, some, length, drop, leb, ◌==◌, if◌then◌else◌, Result, ok, err, ◌>>=◌, ◌>>◌,
}
use google_find_my_tools_go.Prelude.{fail_if}
use google_find_my_tools_go.Bytes.{codes, bytes_eq, has_prefix, is_empty}
use google_find_my_tools_go.Text.{trim_space, split, cut}
pub mod Index
pub mod Groups
pub mod Grouping
pub mod Accepted

pub record ListSpec : Type 0 where
  pub id : List ℕ
  pub name : List ℕ

-- The class [A-Za-z0-9_-].
unfoldable pub is_id_byte : ℕ → Bool
is_id_byte c =
    leb b'A' c && leb c b'Z'
    || leb b'a' c && leb c b'z'
    || leb b'0' c && leb c b'9'
    || c == b'_'
    || c == b'-'

-- The longest run of the class at the front, and what follows it.
unfoldable pub id_run : List ℕ → List ℕ
unfolding is_id_byte
id_run [] = []
id_run (c ∷ s) = let rest = id_run s in if is_id_byte c then c ∷ rest else []

unfoldable pub after_run : List ℕ → List ℕ
unfolding is_id_byte
after_run [] = []
after_run (c ∷ s) = let rest = after_run s in if is_id_byte c then rest else c ∷ s

-- The group of listPathPattern where the pattern matches right behind its fixed text, and that of
-- listDataPattern, which wants an exclamation mark behind the run.
abbrev pub group_of : Bool → List ℕ → Option (List ℕ)
group_of accepted [] = none
group_of accepted (c ∷ run) = if accepted then some (c ∷ run) else none

unfoldable pub path_group : List ℕ → Option (List ℕ)
unfolding id_run
path_group s = group_of true (id_run s)

unfoldable pub data_group : List ℕ → Option (List ℕ)
unfolding id_run after_run
data_group s = group_of (has_prefix (after_run s) (codes "!")) (id_run s)

abbrev pub or_else : Option (List ℕ) → Option (List ℕ) → Option (List ℕ)
or_else (some g) later = some g
or_else none later = later

-- FindStringSubmatch of a pattern of a fixed text and a group: the first place that matches.
unfoldable pub find_group : List ℕ → (List ℕ → Option (List ℕ)) → List ℕ → Option (List ℕ)
find_group literal group [] = none
find_group literal group (c ∷ s) =
    let rest = find_group literal group s in
    if has_prefix (c ∷ s) literal
    then or_else (group (drop (length literal) (c ∷ s))) rest
    else rest

unfoldable pub list_path_pattern : List ℕ → Option (List ℕ)
unfolding find_group path_group
list_path_pattern s = find_group (codes "/maps/placelists/list/") path_group s

unfoldable pub list_data_pattern : List ℕ → Option (List ℕ)
unfolding find_group data_group
list_data_pattern s = find_group (codes "!2s") data_group s

-- rawListIDPattern.MatchString
unfoldable pub all_id_bytes : List ℕ → Bool
unfolding is_id_byte
all_id_bytes [] = true
all_id_bytes (c ∷ s) = is_id_byte c && all_id_bytes s

unfoldable pub raw_list_id_pattern : List ℕ → Bool
unfolding all_id_bytes
raw_list_id_pattern s = not (is_empty s) && all_id_bytes s

-- "could not extract a saved-list ID from %q" under "line %d", and "no saved-list URLs or IDs
-- found"
pub data SpecError : Type 0 where
  no_list_id : ℕ → List ℕ → SpecError
  no_specs : SpecError

-- url.Parse: the path of the result, `none` on an error.
abbrev pub UrlPath : Type 0
UrlPath = List ℕ → Option (List ℕ)

abbrev pub path_of_url : Option (List ℕ) → Option (List ℕ)
path_of_url none = none
path_of_url (some path) = list_path_pattern path

abbrev pub raw_id : List ℕ → Option (List ℕ)
raw_id value = if raw_list_id_pattern value then some value else none

-- extractListID: `none` for its error.
unfoldable pub extract_list_id : UrlPath → List ℕ → Option (List ℕ)
extract_list_id url_path value =
    let v = trim_space value in
    or_else (list_path_pattern v)
      (or_else (list_data_pattern v) (or_else (path_of_url (url_path v)) (raw_id v)))

-- parseListInputLine: the name and the value.
abbrev pub line_parts : List ℕ → Option (List ℕ × List ℕ) → List ℕ × List ℕ
line_parts line none = ([], line)
line_parts line (some (before, after)) = (trim_space before, trim_space after)

unfoldable pub parse_list_input_line : List ℕ → List ℕ × List ℕ
parse_list_input_line line = line_parts line (cut b'\t' line)

-- The map `seen` from an id to its index, and the specs so far.
pub record Specs : Type 0 where
  pub seen : List (List ℕ × ℕ)
  pub specs : List ListSpec

unfoldable pub lookup : List ℕ → List (List ℕ × ℕ) → Option ℕ
lookup id [] = none
lookup id ((key, index) ∷ m) =
    let rest = lookup id m in if bytes_eq id key then some index else rest

-- specs[index].Name = name where the name there is empty and the new one is not.
abbrev pub name_spec : List ℕ → ListSpec → ListSpec
name_spec name s = if is_empty s.name && not (is_empty name) then record s { name = name } else s

unfoldable pub name_at : ℕ → List ℕ → List ListSpec → List ListSpec
name_at index name [] = []
name_at zero name (s ∷ ss) = name_spec name s ∷ ss
name_at (suc index) name (s ∷ ss) = s ∷ name_at index name ss

-- What the loop does with an id and a name.
abbrev pub put_spec : Specs → List ℕ → List ℕ → Option ℕ → Specs
put_spec st id name (some index) = record st { specs = name_at index name st.specs }
put_spec st id name none = record {
  seen = (id, length st.specs) ∷ st.seen;
  specs = st.specs ++ (record { id = id; name = name }) ∷ [];
}

unfoldable pub add_spec : Specs → List ℕ → List ℕ → Specs
unfolding lookup name_at
add_spec st id name = put_spec st id name (lookup id st.seen)

abbrev pub skipped : List ℕ → Bool
skipped line = is_empty line || has_prefix line (codes "#")

abbrev pub id_or_error : ℕ → List ℕ → Option (List ℕ) → Result SpecError (List ℕ)
id_or_error number value none = err (no_list_id number (trim_space value))
id_or_error number value (some id) = ok id

-- The id and the name of a line that is not skipped.
unfoldable pub read_line : UrlPath → ℕ → List ℕ → Result SpecError (List ℕ × List ℕ)
read_line url_path number line =
    let (name, value) = parse_list_input_line line in
    id_or_error number value (extract_list_id url_path value) >>= λ id. ok (id, name)

-- A round of the loop, on the line with its number, which counts from 1 in an error.
unfoldable pub spec_line : UrlPath → Specs → ℕ → List ℕ → Result SpecError Specs
unfolding read_line add_spec
spec_line url_path st number raw =
    let line = trim_space raw in
    if skipped line then ok st else read_line url_path number line >>= λ e. ok (add_spec st e.0 e.1)

unfoldable pub spec_lines : UrlPath → Specs → ℕ → List (List ℕ) → Result SpecError Specs
unfolding spec_line
spec_lines url_path st number [] = ok st
spec_lines url_path st number (line ∷ lines) =
    spec_line url_path st number line >>= λ st'. spec_lines url_path st' (suc number) lines

abbrev pub is_nil {ℓ} : {A : Type ℓ} → List A → Bool
is_nil [] = true
is_nil (x ∷ xs) = false

unfoldable pub parse_list_specs : UrlPath → List ℕ → Result SpecError (List ListSpec)
unfolding spec_lines
parse_list_specs url_path input =
    spec_lines url_path (record { seen = []; specs = [] }) 1 (split b'\n' input) >>= λ st.
    fail_if (is_nil st.specs) no_specs >> ok st.specs
