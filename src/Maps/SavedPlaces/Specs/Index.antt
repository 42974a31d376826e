-- ===== src/Maps/SavedPlaces/Specs/Index.antt =====
-- The map of indices in the loop of ParseListSpecs: it finds each id where the list has it.
use google_find_my_tools_go.Prelude.{
  ℕ, zero, suc, ◌-◌, ◌≡◌, refl, sym, ap, ◌∙◌, Bool, true, false, List, [], ◌∷◌, ◌++◌, map,
}
use google_find_my_tools_go.Prelude.{Option, none, some, length, if◌then◌else◌, arith}
use google_find_my_tools_go.Bytes.{bytes_eq, bytes_eq_iff}
use google_find_my_tools_go.Maps.SavedPlaces.Specs.{
  ListSpec, Specs, lookup, name_spec, name_at, add_spec, put_spec,
}

unfoldable pub member : List ℕ → List ListSpec → Bool
member id [] = false
member id (s ∷ ss) = let rest = member id ss in if bytes_eq id s.id then true else rest

abbrev pub suc_option : Option ℕ → Option ℕ
suc_option none = none
suc_option (some i) = some (suc i)

unfoldable pub index_of : List ℕ → List ListSpec → Option ℕ
index_of id [] = none
index_of id (s ∷ ss) =
    let rest = index_of id ss in if bytes_eq id s.id then some 0 else suc_option rest

-- No two specs have the same id.
unfoldable pub Distinct : List ListSpec → Type 0
unfolding member
Distinct [] = Unit
Distinct (s ∷ ss) = (member s.id ss ≡ false) × Distinct ss

pub record Indexed (st : Specs) : Type 0 where
  pub index : (id : List ℕ) → lookup id st.seen ≡ index_of id st.specs
  pub distinct : Distinct st.specs

abbrev pub fill_one : List ℕ → List ℕ → ListSpec → ListSpec
fill_one id name s = if bytes_eq id s.id then name_spec name s else s

fill_absent :
    (id name : List ℕ) (ss : List ListSpec) → member id ss ≡ false → map (fill_one id name) ss ≡ ss
unfolding member
fill_absent id name [] h = refl
fill_absent id name (s ∷ ss) h = ground (arith, fill_absent id name ss)

index_of-member : (id : List ℕ) (ss : List ListSpec) → index_of id ss ≡ none → member id ss ≡ false
unfolding index_of member
index_of-member id [] h = refl
index_of-member id (s ∷ ss) h = ground (arith, index_of-member id ss)

member-index_of :
    (id : List ℕ) (ss : List ListSpec) (i : ℕ) → index_of id ss ≡ some i → member id ss ≡ true
unfolding index_of member
member-index_of id [] i h = cc
member-index_of id (s ∷ ss) i h = ground (arith, member-index_of id ss (i - 1))

name_at-fill :
    (id name : List ℕ) (ss : List ListSpec) (i : ℕ)
    → Distinct ss
    → index_of id ss ≡ some i
    → name_at i name ss ≡ map (fill_one id name) ss
unfolding index_of name_at Distinct
name_at-fill id name [] i d h = cc
name_at-fill id name (s ∷ ss) zero d h =
    ground (arith, bytes_eq_iff id s.id, fill_absent id name ss)
name_at-fill id name (s ∷ ss) (suc i) d h =
    ground (arith, bytes_eq_iff id s.id, member-index_of id ss i, name_at-fill id name ss i)

module _ (id name : List ℕ) where
  name_spec-id : (s : ListSpec) → (name_spec name s).id ≡ s.id
  name_spec-id s = ground arith

  member-name_at :
      (i : ℕ) (other : List ℕ) (ss : List ListSpec)
      → member other (name_at i name ss) ≡ member other ss
  unfolding member name_at
  member-name_at i other [] = refl
  member-name_at zero other (s ∷ ss) = ground arith
  member-name_at (suc i) other (s ∷ ss) = ground (arith, member-name_at i other ss)

  index_of-name_at :
      (i : ℕ) (other : List ℕ) (ss : List ListSpec)
      → index_of other (name_at i name ss) ≡ index_of other ss
  unfolding index_of name_at
  index_of-name_at i other [] = refl
  index_of-name_at zero other (s ∷ ss) = ground arith
  index_of-name_at (suc i) other (s ∷ ss) = ground (arith, index_of-name_at i other ss)

  Distinct-name_at : (i : ℕ) (ss : List ListSpec) → Distinct ss → Distinct (name_at i name ss)
  unfolding Distinct name_at
  Distinct-name_at i [] d = d
  Distinct-name_at zero (s ∷ ss) d = (ap (λ t. member t ss) (name_spec-id s) ∙ d.0, d.1)
  Distinct-name_at (suc i) (s ∷ ss) d = (member-name_at i s.id ss ∙ d.0, Distinct-name_at i ss d.1)

  pub member-snoc :
      (other : List ℕ) (ss : List ListSpec)
      → member other (ss ++ (record { id = id; name = name }) ∷ [])
        ≡ (if member other ss then true else bytes_eq other id)
  unfolding member
  member-snoc other [] = ground arith
  member-snoc other (s ∷ ss) = ground (arith, member-snoc other ss)

  -- Where the id is new, it gets the next index.
  index_of-snoc :
      (other : List ℕ) (ss : List ListSpec)
      → index_of id ss ≡ none
      → index_of other (ss ++ (record { id = id; name = name }) ∷ [])
        ≡ (if bytes_eq other id then some (length ss) else index_of other ss)
  unfolding index_of
  index_of-snoc other [] h = ground arith
  index_of-snoc other (s ∷ ss) h = ground (
    arith,
    bytes_eq_iff other id,
    bytes_eq_iff id s.id,
    bytes_eq_iff other s.id,
    index_of-snoc other ss,
  )

  Distinct-snoc :
      (ss : List ListSpec)
      → member id ss ≡ false
      → Distinct ss
      → Distinct (ss ++ (record { id = id; name = name }) ∷ [])
  unfolding Distinct member
  Distinct-snoc [] h d = (refl, tt)
  Distinct-snoc (s ∷ ss) h d =
      ground
        (arith, member-snoc s.id ss, bytes_eq_iff s.id id, bytes_eq_iff id s.id, Distinct-snoc ss)

  -- A step on the specs alone.
  abbrev pub merge : List ListSpec → List ListSpec
  merge ss =
      if member id ss
      then map (fill_one id name) ss
      else ss ++ (record { id = id; name = name }) ∷ []

  -- The map `seen` stays right.
  Indexed-put :
      (st : Specs) (o : Option ℕ)
      → index_of id st.specs ≡ o
      → Indexed st
      → Indexed (put_spec st id name o)
  unfolding lookup
  Indexed-put st none h inv = record {
    index = λ other. ground (arith, index_of-snoc other st.specs, inv.index other);
    distinct = Distinct-snoc st.specs (index_of-member id st.specs h) inv.distinct;
  }
  Indexed-put st (some i) h inv = record {
    index = λ other. inv.index other ∙ sym (index_of-name_at i other st.specs);
    distinct = Distinct-name_at i st.specs inv.distinct;
  }

  put_spec-merge :
      (st : Specs) (o : Option ℕ)
      → index_of id st.specs ≡ o
      → Indexed st
      → (put_spec st id name o).specs ≡ merge st.specs
  put_spec-merge st none h inv = ground (arith, index_of-member id st.specs)
  put_spec-merge st (some i) h inv =
      ground (arith, member-index_of id st.specs i, name_at-fill id name st.specs i inv.distinct)

  pub Indexed-add : (st : Specs) → Indexed st → Indexed (add_spec st id name)
  unfolding add_spec
  Indexed-add st inv = Indexed-put st (lookup id st.seen) (sym (inv.index id)) inv

  pub add_spec-merge : (st : Specs) → Indexed st → (add_spec st id name).specs ≡ merge st.specs
  unfolding add_spec
  add_spec-merge st inv = put_spec-merge st (lookup id st.seen) (sym (inv.index id)) inv

abbrev pub no_specs_yet : Specs
no_specs_yet = record { seen = []; specs = [] }

pub Indexed-empty : Indexed no_specs_yet
unfolding lookup index_of Distinct
Indexed-empty = record { index = λ id. refl; distinct = tt }
