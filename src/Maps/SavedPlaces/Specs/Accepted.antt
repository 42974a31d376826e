-- ===== src/Maps/SavedPlaces/Specs/Accepted.antt =====
-- What ParseListSpecs returns: different ids, each of which FetchList accepts.
use google_find_my_tools_go.Prelude.{
  ℕ, suc, ◌≡◌, refl, sym, ap, ◌∙◌, Bool, true, false, List, [], ◌∷◌,
}
use google_find_my_tools_go.Prelude.{
  Option, none, some, if◌then◌else◌, Result, ok, err, ◌>>=◌, ◌>>◌, fail_if, arith, bind-ok,
  ok-injective, All,
}
use google_find_my_tools_go.Prelude.{inl, inr, Bool-cases}
use google_find_my_tools_go.Bytes.{has_prefix}
use google_find_my_tools_go.Text.{trim_space}
use google_find_my_tools_go.Maps.SavedPlaces.Specs.{
  ListSpec, skipped, read_line, is_nil, parse_list_specs, UrlPath, SpecError, no_specs,
  all_id_bytes, raw_list_id_pattern, id_run, group_of, path_group, data_group, or_else, find_group,
  list_path_pattern, list_data_pattern, path_of_url, raw_id, extract_list_id, id_or_error,
}
use google_find_my_tools_go.Maps.SavedPlaces.Specs.Index.{member, Distinct}
use google_find_my_tools_go.Maps.SavedPlaces.Specs.Groups.{Entry, group, without, read_entries}
use google_find_my_tools_go.Maps.SavedPlaces.Specs.Grouping.{parse_list_specs_groups}

-- An id that the pattern of raw ids matches.
abbrev pub IsListId : List ℕ → Type 0
IsListId id = raw_list_id_pattern id ≡ true

-- An option that holds nothing but list ids.
abbrev pub HoldsId : Option (List ℕ) → Type 0
HoldsId none = Unit
HoldsId (some id) = IsListId id

id_run-all_id_bytes : (s : List ℕ) → all_id_bytes (id_run s) ≡ true
unfolding id_run all_id_bytes
id_run-all_id_bytes [] = refl
id_run-all_id_bytes (c ∷ s) = ground (arith, id_run-all_id_bytes s)

group_of-HoldsId :
    (accepted : Bool) (run : List ℕ) → all_id_bytes run ≡ true → HoldsId (group_of accepted run)
unfolding raw_list_id_pattern
group_of-HoldsId accepted [] h = tt
group_of-HoldsId true (c ∷ run) h = h
group_of-HoldsId false (c ∷ run) h = tt

or_else-HoldsId :
    (g later : Option (List ℕ)) → HoldsId g → HoldsId later → HoldsId (or_else g later)
or_else-HoldsId none later h k = k
or_else-HoldsId (some g) later h k = h

if-HoldsId :
    (t : Bool) (g later : Option (List ℕ))
    → HoldsId g
    → HoldsId later
    → HoldsId (if t then g else later)
if-HoldsId true g later h k = h
if-HoldsId false g later h k = k

find_group-HoldsId :
    (literal : List ℕ) (pick : List ℕ → Option (List ℕ))
    → ((s : List ℕ) → HoldsId (pick s))
    → (s : List ℕ) → HoldsId (find_group literal pick s)
unfolding find_group
find_group-HoldsId literal pick h [] = tt
find_group-HoldsId literal pick h (c ∷ s) =
    let later = find_group-HoldsId literal pick h s in
    if-HoldsId (has_prefix (c ∷ s) literal) _ _ (or_else-HoldsId _ _ (h _) later) later

list_path_pattern-HoldsId : (s : List ℕ) → HoldsId (list_path_pattern s)
unfolding list_path_pattern path_group
list_path_pattern-HoldsId =
    find_group-HoldsId _ path_group (λ s. group_of-HoldsId true (id_run s) (id_run-all_id_bytes s))

list_data_pattern-HoldsId : (s : List ℕ) → HoldsId (list_data_pattern s)
unfolding list_data_pattern data_group
list_data_pattern-HoldsId =
    find_group-HoldsId _ data_group (λ s. group_of-HoldsId _ (id_run s) (id_run-all_id_bytes s))

path_of_url-HoldsId : (path : Option (List ℕ)) → HoldsId (path_of_url path)
path_of_url-HoldsId none = tt
path_of_url-HoldsId (some path) = list_path_pattern-HoldsId path

raw_id-HoldsId : (v : List ℕ) → HoldsId (raw_id v)
raw_id-HoldsId v = elim (Bool-cases (raw_list_id_pattern v)) [
  | inl h ↦ rw (h) h
  | inr h ↦ rw (h) tt
]

pub extract_list_id-HoldsId :
    (url_path : UrlPath) (value : List ℕ) → HoldsId (extract_list_id url_path value)
unfolding extract_list_id
extract_list_id-HoldsId url_path value =
    let v = trim_space value in
    or_else-HoldsId _ _ (list_path_pattern-HoldsId v) (
      or_else-HoldsId _ _ (list_data_pattern-HoldsId v)
        (or_else-HoldsId _ _ (path_of_url-HoldsId (url_path v)) (raw_id-HoldsId v)))

id_or_error-IsListId :
    (number : ℕ) (value : List ℕ) (o : Option (List ℕ)) (id : List ℕ)
    → HoldsId o
    → id_or_error number value o ≡ ok id
    → IsListId id
id_or_error-IsListId number value none id h e = cc
id_or_error-IsListId number value (some g) id h e =
    ap raw_list_id_pattern (sym (ok-injective g id e)) ∙ h

-- Each entry that is read has a list id.
abbrev EntryId : Entry → Type 0
EntryId e = IsListId e.0

read_line-EntryId :
    (url_path : UrlPath) (number : ℕ) (line : List ℕ) (e : Entry)
    → read_line url_path number line ≡ ok e
    → EntryId e
unfolding read_line
read_line-EntryId url_path number line e h =
    let (id, (got, same)) = bind-ok _ _ e h in
    ap (λ (x : Entry). raw_list_id_pattern x.0) (sym (ok-injective _ e same))
    ∙ id_or_error-IsListId number _ _ id (extract_list_id-HoldsId url_path _) got

entries-All :
    (t : Bool) (rest : Result SpecError (List Entry)) (r : Result SpecError Entry) (es : List Entry)
    → ((es' : List Entry) → rest ≡ ok es' → All EntryId es')
    → ((e : Entry) → r ≡ ok e → EntryId e)
    → (if t then rest else r >>= λ e. rest >>= λ es'. ok (e ∷ es')) ≡ ok es
    → All EntryId es
entries-All true rest r es hs he h = hs es h
entries-All false rest (err e) es hs he h = cc
entries-All false (err e') (ok e) es hs he h = cc
entries-All false (ok es') (ok e) es hs he h =
    rw (← ok-injective (e ∷ es') es h) (he e refl, hs es' refl)

read_entries-All :
    (url_path : UrlPath) (lines : List (List ℕ)) (number : ℕ) (es : List Entry)
    → read_entries url_path number lines ≡ ok es
    → All EntryId es
unfolding read_entries
read_entries-All url_path [] number es h = rw (← ok-injective [] es h) tt
read_entries-All url_path (line ∷ lines) number es h =
    entries-All (skipped (trim_space line)) _ _ es (read_entries-All url_path lines (suc number))
      (read_line-EntryId url_path number (trim_space line)) h

member-without_self : (id : List ℕ) (ss : List ListSpec) → member id (without id ss) ≡ false
unfolding member without
member-without_self id [] = refl
member-without_self id (s ∷ ss) = ground (arith, member-without_self id ss)

member-without :
    (other id : List ℕ) (ss : List ListSpec)
    → member other ss ≡ false
    → member other (without id ss) ≡ false
unfolding member without
member-without other id [] h = refl
member-without other id (s ∷ ss) h = ground (arith, member-without other id ss)

Distinct-without : (id : List ℕ) (ss : List ListSpec) → Distinct ss → Distinct (without id ss)
unfolding Distinct without
Distinct-without id [] d = tt
Distinct-without id (s ∷ ss) d = ground (arith, member-without s.id id ss, Distinct-without id ss)

group-Distinct : (es : List Entry) → Distinct (group es)
unfolding group Distinct
group-Distinct [] = tt
group-Distinct ((id, name) ∷ es) =
    (member-without_self id (group es), Distinct-without id (group es) (group-Distinct es))

abbrev pub SpecId : ListSpec → Type 0
SpecId s = IsListId s.id

All-without : (id : List ℕ) (ss : List ListSpec) → All SpecId ss → All SpecId (without id ss)
unfolding without
All-without id [] h = tt
All-without id (s ∷ ss) h = ground (arith, All-without id ss)

group-All : (es : List Entry) → All EntryId es → All SpecId (group es)
unfolding group
group-All [] h = tt
group-All ((id, name) ∷ es) h = (h.0, All-without id (group es) (group-All es h.1))

group-is_nil : (e : Entry) (es : List Entry) → is_nil (group (e ∷ es)) ≡ false
unfolding group
group-is_nil e es = refl

group-Accepted :
    (es : List Entry) (specs : List ListSpec)
    → All EntryId es
    → (fail_if (is_nil es) no_specs >> ok (group es)) ≡ ok specs
    → (is_nil specs ≡ false) × Distinct specs × All SpecId specs
group-Accepted [] specs ids h = cc
group-Accepted (e ∷ es) specs ids h =
    rw (← ok-injective (group (e ∷ es)) specs h)
      (group-is_nil e es, group-Distinct (e ∷ es), group-All (e ∷ es) ids)

-- If ParseListSpecs returns specs, there is at least one, no two have the same id, and every id is
-- one that FetchList accepts.
pub parse_list_specs-Accepted :
    (url_path : UrlPath) (input : List ℕ) (specs : List ListSpec)
    → parse_list_specs url_path input ≡ ok specs
    → (is_nil specs ≡ false) × Distinct specs × All SpecId specs
parse_list_specs-Accepted url_path input specs h =
    let (es, (read, rest)) = bind-ok _ _ specs (sym (parse_list_specs_groups url_path input) ∙ h) in
    group-Accepted es specs (read_entries-All url_path _ 1 es read) rest
