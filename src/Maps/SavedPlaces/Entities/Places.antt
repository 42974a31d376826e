-- ===== src/Maps/SavedPlaces/Entities/Places.antt =====
-- The loop over the entries of a list, with its map of keys, against a description of its result.
use google_find_my_tools_go.Prelude.{
  ℕ, ◌≡◌, refl, ap, ◌∙◌, true, List, [], ◌∷◌, Option, none, some, if◌then◌else◌, arith,
}
use google_find_my_tools_go.Bytes.{bytes_eq, bytes_eq_iff}
use google_find_my_tools_go.Json.{Value}
use google_find_my_tools_go.Maps.SavedPlaces.Entities.{
  Place, read_place, place_key, has_key, places_loop, place_round, parse_entity_list, place_items,
  unwrap_data,
}

abbrev pub onto : Option Place → List Place → List Place
onto none ps = ps
onto (some p) ps = p ∷ ps

-- The places of the entries that can be read, in order.
unfoldable pub readable : List Value → List Place
readable [] = []
readable (item ∷ items) = onto (read_place item) (readable items)

unfoldable pub without_key : List ℕ → List Place → List Place
without_key key [] = []
without_key key (p ∷ ps) =
    let rest = without_key key ps in if bytes_eq key (place_key p) then rest else p ∷ rest

-- The first place of each key.
unfoldable pub first_of_keys : List Place → List Place
unfolding without_key
first_of_keys [] = []
first_of_keys (p ∷ ps) = p ∷ without_key (place_key p) (first_of_keys ps)

unseen : List (List ℕ) → List Place → List Place
unseen seen [] = []
unseen seen (p ∷ ps) =
    let rest = unseen seen ps in if has_key (place_key p) seen then rest else p ∷ rest

unseen-nil : (ps : List Place) → unseen [] ps ≡ ps
unfolding unseen has_key
unseen-nil [] = refl
unseen-nil (p ∷ ps) = ap (λ t. p ∷ t) (unseen-nil ps)

module _ (key : List ℕ) (seen : List (List ℕ)) where
  unseen-without_key :
      (ps : List Place)
      → has_key key seen ≡ true
      → unseen seen (without_key key ps) ≡ unseen seen ps
  unfolding unseen without_key
  unseen-without_key [] h = refl
  unseen-without_key (p ∷ ps) h =
      ground (arith, bytes_eq_iff key (place_key p), unseen-without_key ps)

  unseen-cons : (ps : List Place) → unseen (key ∷ seen) ps ≡ unseen seen (without_key key ps)
  unfolding unseen without_key has_key
  unseen-cons [] = refl
  unseen-cons (p ∷ ps) =
      ground (arith, bytes_eq_iff key (place_key p), bytes_eq_iff (place_key p) key, unseen-cons ps)

-- A round of the loop, from what the rounds behind it do.
place_round-unseen :
    (seen : List (List ℕ)) (o : Option Place) (ps : List Place)
    → place_round seen o
        (unseen seen (first_of_keys ps))
        (λ key. unseen (key ∷ seen) (first_of_keys ps))
      ≡ unseen seen (first_of_keys (onto o ps))
unfolding unseen first_of_keys
place_round-unseen seen none ps = refl
place_round-unseen seen (some p) ps = ground (
  arith,
  unseen-without_key (place_key p) seen (first_of_keys ps),
  unseen-cons (place_key p) seen (first_of_keys ps),
)

places_loop-unseen :
    (items : List Value) (seen : List (List ℕ))
    → places_loop seen items ≡ unseen seen (first_of_keys (readable items))
unfolding places_loop readable unseen first_of_keys
places_loop-unseen [] seen = refl
places_loop-unseen (item ∷ items) seen =
    ap
      (λ (rounds : List Place × (List ℕ → List Place)).
        place_round seen (read_place item) rounds.0 rounds.1)
      (λ i. (places_loop-unseen items seen i, λ key. places_loop-unseen items (key ∷ seen) i))
    ∙ place_round-unseen seen (read_place item) (readable items)

-- parseEntityList returns the first place of each key, of those that the entries are read as.
pub parse_entity_list_firsts :
    (decoded : List Value)
    → (parse_entity_list decoded).0 ≡ first_of_keys (readable (place_items (unwrap_data decoded)))
unfolding parse_entity_list
parse_entity_list_firsts decoded =
    places_loop-unseen (place_items (unwrap_data decoded)) [] ∙ unseen-nil _
