-- ===== src/Maps/SavedPlaces/Specs/Groups.antt =====
-- The entries of the lines of ParseListSpecs, grouped by their id, and what one entry does to
-- specs that are completed by those behind it.
use google_find_my_tools_go.Prelude.{
  ℕ, suc, ◌≡◌, refl, sym, ap, ◌∙◌, true, false, not, ◌&&◌, List, [], ◌∷◌, ◌++◌, map,
}
use google_find_my_tools_go.Prelude.{if◌then◌else◌, Result, ok, ◌>>=◌, arith}
use google_find_my_tools_go.Prelude.{inl, inr, Bool-cases, append_assoc, map-append}
use google_find_my_tools_go.Bytes.{bytes_eq, bytes_eq_iff, bytes_eq_self, is_empty}
use google_find_my_tools_go.Text.{trim_space}
use google_find_my_tools_go.Maps.SavedPlaces.Specs.{
  ListSpec, skipped, read_line, UrlPath, SpecError,
}
use google_find_my_tools_go.Maps.SavedPlaces.Specs.Index.{member, fill_one, merge, member-snoc}

abbrev pub Entry : Type 0
Entry = List ℕ × List ℕ

-- The ids and names of the lines that are not skipped, or the first error.
unfoldable pub read_entries : UrlPath → ℕ → List (List ℕ) → Result SpecError (List Entry)
read_entries url_path number [] = ok []
read_entries url_path number (line ∷ lines) =
    let rest = read_entries url_path (suc number) lines in
    if skipped (trim_space line)
    then rest
    else read_line url_path number (trim_space line) >>= λ e. rest >>= λ es. ok (e ∷ es)

-- The first name of an id that is not empty.
unfoldable pub name_in : List ℕ → List Entry → List ℕ
name_in id [] = []
name_in id ((key, name) ∷ es) =
    let rest = name_in id es in if bytes_eq id key && not (is_empty name) then name else rest

unfoldable pub without : List ℕ → List ListSpec → List ListSpec
without id [] = []
without id (s ∷ ss) = let rest = without id ss in if bytes_eq id s.id then rest else s ∷ rest

-- Every id once, where it comes first, with the first name given to it.
unfoldable pub group : List Entry → List ListSpec
unfolding name_in without
group [] = []
group ((id, name) ∷ es) =
    record { id = id; name = name_in id ((id, name) ∷ es) } ∷ without id (group es)

abbrev pub complete : List Entry → ListSpec → ListSpec
complete es s = record { id = s.id; name = if is_empty s.name then name_in s.id es else s.name }

-- Those with an id that is not among the specs.
unfoldable pub others : List ListSpec → List ListSpec → List ListSpec
others ss [] = []
others ss (g ∷ gs) = let rest = others ss gs in if member g.id ss then rest else g ∷ rest

-- One entry and those behind it, where the id is among the specs and where it is not.
module _ (id name : List ℕ) (es : List Entry) where
  complete-fill_one :
      (s : ListSpec) → complete es (fill_one id name s) ≡ complete ((id, name) ∷ es) s
  unfolding name_in
  complete-fill_one s = ground (arith, bytes_eq_iff id s.id, bytes_eq_iff s.id id)

  map-complete_fill :
      (ss : List ListSpec)
      → map (complete es) (map (fill_one id name) ss) ≡ map (complete ((id, name) ∷ es)) ss
  map-complete_fill [] = refl
  map-complete_fill (s ∷ ss) = cc (complete-fill_one s, map-complete_fill ss)

  map-complete_absent :
      (ss : List ListSpec)
      → member id ss ≡ false
      → map (complete ((id, name) ∷ es)) ss ≡ map (complete es) ss
  unfolding member name_in
  map-complete_absent [] h = refl
  map-complete_absent (s ∷ ss) h =
      ground (arith, bytes_eq_iff id s.id, bytes_eq_iff s.id id, map-complete_absent ss)

  complete-new :
      complete es (record { id = id; name = name })
      ≡ record { id = id; name = name_in id ((id, name) ∷ es) }
  unfolding name_in
  complete-new = ground (arith, bytes_eq_self id)

module _ (id name : List ℕ) (ss : List ListSpec) where
  member-fill :
      (other : List ℕ) (ss' : List ListSpec)
      → member other (map (fill_one id name) ss') ≡ member other ss'
  unfolding member
  member-fill other [] = refl
  member-fill other (s ∷ ss') = ground (arith, member-fill other ss')

  others-fill : (gs : List ListSpec) → others (map (fill_one id name) ss) gs ≡ others ss gs
  unfolding others
  others-fill [] = refl
  others-fill (g ∷ gs) = ground (arith, member-fill g.id ss, others-fill gs)

  others-without :
      (gs : List ListSpec) → member id ss ≡ true → others ss (without id gs) ≡ others ss gs
  unfolding others without
  others-without [] h = refl
  others-without (g ∷ gs) h = ground (arith, bytes_eq_iff id g.id, others-without gs)

  others-snoc :
      (gs : List ListSpec)
      → others (ss ++ (record { id = id; name = name }) ∷ []) gs ≡ others ss (without id gs)
  unfolding others without
  others-snoc [] = refl
  others-snoc (g ∷ gs) = ground (
    arith,
    bytes_eq_iff id g.id,
    bytes_eq_iff g.id id,
    member-snoc id name g.id ss,
    others-snoc gs,
  )

-- What a step of the loop and the entries behind it make of the specs.
merge-present :
    (id name : List ℕ) (es : List Entry) (ss : List ListSpec)
    → member id ss ≡ true
    → map (complete es) (map (fill_one id name) ss) ++ others (map (fill_one id name) ss) (group es)
      ≡ map (complete ((id, name) ∷ es)) ss ++ others ss (group ((id, name) ∷ es))
unfolding others group
merge-present id name es ss h =
    rw (map-complete_fill id name es ss, others-fill id name ss (group es), h)
      (ap (λ t. map (complete ((id, name) ∷ es)) ss ++ t)
        (sym (others-without id name ss (group es) h)))

merge-absent :
    (id name : List ℕ) (es : List Entry) (ss : List ListSpec)
    → member id ss ≡ false
    → map (complete es) (ss ++ (record { id = id; name = name }) ∷ [])
        ++ others (ss ++ (record { id = id; name = name }) ∷ []) (group es)
      ≡ map (complete ((id, name) ∷ es)) ss ++ others ss (group ((id, name) ∷ es))
unfolding others group
merge-absent id name es ss h =
    rw
      (
        h,
        map-append (complete es) ss ((record { id = id; name = name }) ∷ []),
        others-snoc id name ss (group es),
        ← complete-new id name es,
      )
      (append_assoc (map (complete es) ss) _ _
        ∙ ap
            (λ t.
              t
              ++ (complete es (record { id = id; name = name })
                  ∷ others ss (without id (group es))))
            (sym (map-complete_absent id name es ss h)))

pub merge-grouped :
    (id name : List ℕ) (es : List Entry) (ss : List ListSpec)
    → map (complete es) (merge id name ss) ++ others (merge id name ss) (group es)
      ≡ map (complete ((id, name) ∷ es)) ss ++ others ss (group ((id, name) ∷ es))
merge-grouped id name es ss = elim (Bool-cases (member id ss)) [
  | inl h ↦ rw (h) (merge-present id name es ss h)
  | inr h ↦ rw (h) (merge-absent id name es ss h)
]
