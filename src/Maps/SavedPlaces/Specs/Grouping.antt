-- ===== src/Maps/SavedPlaces/Specs/Grouping.antt =====
-- The loop of ParseListSpecs, with its map of indices, against a description of its result: the
-- entries of the lines grouped by their id.
use google_find_my_tools_go.Prelude.{
  ℕ, suc, ◌≡◌, refl, sym, ap, ◌∙◌, Bool, true, false, List, [], ◌∷◌, ◌++◌, map,
}
use google_find_my_tools_go.Prelude.{if◌then◌else◌, Result, ok, err, ◌>>=◌, ◌>>◌, fail_if}
use google_find_my_tools_go.Prelude.{append-nil}
use google_find_my_tools_go.Text.{trim_space, split}
use google_find_my_tools_go.Maps.SavedPlaces.Specs.{
  ListSpec, Specs, add_spec, skipped, read_line, spec_line, spec_lines, is_nil, parse_list_specs,
  UrlPath, SpecError, no_specs,
}
use google_find_my_tools_go.Maps.SavedPlaces.Specs.Index.{
  member, Indexed, Indexed-add, add_spec-merge, Indexed-empty, no_specs_yet,
}
use google_find_my_tools_go.Maps.SavedPlaces.Specs.Groups.{
  Entry, read_entries, name_in, group, complete, others, merge-grouped,
}

add_all : Specs → List Entry → Specs
add_all st [] = st
add_all st ((id, name) ∷ es) = add_all (add_spec st id name) es

complete_nil :
    (id name : List ℕ)
    → ◌≡◌ {A = ListSpec}
        (complete [] (record { id = id; name = name }))
        (record { id = id; name = name })
unfolding name_in
complete_nil id [] = refl
complete_nil id (c ∷ name) = refl

map-complete_nil : (ss : List ListSpec) → map (complete []) ss ≡ ss
unfolding name_in
map-complete_nil [] = refl
map-complete_nil (s ∷ ss) = cc (complete_nil s.id s.name, map-complete_nil ss)

others-nothing : (gs : List ListSpec) → others [] gs ≡ gs
unfolding others member
others-nothing [] = refl
others-nothing (g ∷ gs) = ap (λ t. g ∷ t) (others-nothing gs)

add_all-grouped :
    (es : List Entry) (st : Specs)
    → Indexed st
    → (add_all st es).specs ≡ map (complete es) st.specs ++ others st.specs (group es)
unfolding add_all group others
add_all-grouped [] st inv = sym (append-nil _ ∙ map-complete_nil st.specs)
add_all-grouped ((id, name) ∷ es) st inv =
    add_all-grouped es (add_spec st id name) (Indexed-add id name st inv)
    ∙ rw (add_spec-merge id name st inv) (merge-grouped id name es st.specs)

line-entries :
    (st : Specs) (next : Specs → Result SpecError Specs) (rest : Result SpecError (List Entry))
    → ((st' : Specs) → next st' ≡ (rest >>= λ es. ok (add_all st' es)))
    → (t : Bool) (r : Result SpecError Entry)
    → ((if t then ok st else r >>= λ e. ok (add_spec st e.0 e.1)) >>= next)
      ≡ ((if t then rest else r >>= λ e. rest >>= λ es. ok (e ∷ es)) >>= λ es. ok (add_all st es))
unfolding add_all
line-entries st next rest h true r = h st
line-entries st next rest h false (err e) = refl
line-entries st next (ok es) h false (ok (id, name)) = h (add_spec st id name)
line-entries st next (err e) h false (ok (id, name)) = h (add_spec st id name)

spec_lines-entries :
    (url_path : UrlPath) (lines : List (List ℕ)) (st : Specs) (number : ℕ)
    → spec_lines url_path st number lines
      ≡ (read_entries url_path number lines >>= λ es. ok (add_all st es))
unfolding spec_lines spec_line read_entries add_all
spec_lines-entries url_path [] st number = refl
spec_lines-entries url_path (line ∷ lines) st number =
    line-entries st (λ st'. spec_lines url_path st' (suc number) lines)
      (read_entries url_path (suc number) lines)
      (λ st'. spec_lines-entries url_path lines st' (suc number)) (skipped (trim_space line))
      (read_line url_path number (trim_space line))

entries-specs :
    (r : Result SpecError (List Entry))
    → (r >>= (λ es. ok (add_all no_specs_yet es)) >>= λ st.
        fail_if (is_nil st.specs) no_specs >> ok st.specs)
      ≡ (r >>= λ es. fail_if (is_nil es) no_specs >> ok (group es))
unfolding add_all group
entries-specs (err e) = refl
entries-specs (ok []) = refl
entries-specs (ok (e ∷ es)) =
    ap (λ ss. fail_if (is_nil ss) no_specs >> ok ss)
      (add_all-grouped (e ∷ es) no_specs_yet Indexed-empty ∙ others-nothing (group (e ∷ es)))

-- ParseListSpecs reads the id and the name of every line that is neither empty nor a comment, fails
-- with the first line that has no id, or if there is no entry at all, and returns each id once, in
-- the order in which they come first, with the first name given to it that is not empty.
pub parse_list_specs_groups :
    (url_path : UrlPath) (input : List ℕ)
    → parse_list_specs url_path input ≡ (
        read_entries url_path 1 (split b'\n' input) >>= λ es.
        fail_if (is_nil es) no_specs >> ok (group es))
unfolding parse_list_specs
parse_list_specs_groups url_path input =
    rw (spec_lines-entries url_path (split b'\n' input) no_specs_yet 1)
      (entries-specs (read_entries url_path 1 (split b'\n' input)))
