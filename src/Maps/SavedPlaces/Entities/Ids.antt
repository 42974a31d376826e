-- ===== src/Maps/SavedPlaces/Entities/Ids.antt =====
-- The search for a place id in nested arrays.
use google_find_my_tools_go.Prelude.{
  ℕ, ◌≡◌, refl, sym, true, false, not, List, [], ◌∷◌, ◌++◌, if◌then◌else◌, arith,
}
use google_find_my_tools_go.Bytes.{is_empty}
use google_find_my_tools_go.Json.{null, boolean, number, text, array, object, Items, nil, cons}
use google_find_my_tools_go.Maps.SavedPlaces.Entities.{looks_like_place_id, first_id_string}

-- The strings of nested arrays, in the order in which they are written.
unfoldable pub texts : Items → List (List ℕ)
texts nil = []
texts (cons (text s) vs) = s ∷ texts vs
texts (cons (array xs) vs) = texts xs ++ texts vs
texts (cons _ vs) = texts vs

-- The first string that looks like an id, or the empty one.
unfoldable pub first_id : List (List ℕ) → List ℕ
first_id [] = []
first_id (s ∷ ss) = let rest = first_id ss in if looks_like_place_id s then s else rest

looks_like_place_id-filled : (s : List ℕ) → looks_like_place_id s ≡ true → is_empty s ≡ false
unfolding looks_like_place_id
looks_like_place_id-filled [] h = cc
looks_like_place_id-filled (c ∷ s) h = refl

first_id-append :
    (ss ts : List (List ℕ))
    → first_id (ss ++ ts) ≡ (if not (is_empty (first_id ss)) then first_id ss else first_id ts)
unfolding first_id
first_id-append [] ts = refl
first_id-append (s ∷ ss) ts = ground (arith, looks_like_place_id-filled s, first_id-append ss ts)

-- The search through nested arrays returns the first string that looks like an id among all their
-- strings, in the order in which these are written, and the empty string if there is none.
pub first_id_string-texts : (vs : Items) → first_id_string vs ≡ first_id (texts vs)
unfolding first_id_string first_id texts
first_id_string-texts nil = refl
first_id_string-texts (cons (text s) vs) = ground (arith, first_id_string-texts vs)
first_id_string-texts (cons (array xs) vs) =
    rw (first_id_string-texts xs, first_id_string-texts vs)
      (sym (first_id-append (texts xs) (texts vs)))
first_id_string-texts (cons null vs) = first_id_string-texts vs
first_id_string-texts (cons (boolean b) vs) = first_id_string-texts vs
first_id_string-texts (cons (number x) vs) = first_id_string-texts vs
first_id_string-texts (cons (object ms) vs) = first_id_string-texts vs
