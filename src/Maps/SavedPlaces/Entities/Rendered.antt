-- ===== src/Maps/SavedPlaces/Entities/Rendered.antt =====
-- parseEntityList of pkg/googlefindmy/maps/savedplaces/savedplaces.go on the answer that a list of
-- places is written as.
use mathlib.Core.Path.{subst}
use google_find_my_tools_go.Prelude.{
  ℕ, zero, suc, ◌+◌, ◌*◌, ◌/◌, ◌%◌, ◌^◌, ◌<◌, ◌≡◌, refl, sym, ap, ap₂, ◌∙◌, arith, Bool, true,
  false, not, ◌&&◌, List, [], ◌∷◌, ◌++◌, map, length, drop, get_or, All, All-append, append_assoc,
  none, some, leb, ltb, ◌==◌, if◌then◌else◌, Bool-cases, inl, inr,
}
use google_find_my_tools_go.Bytes.{bytes_eq, bytes_eq_iff, is_empty}
use google_find_my_tools_go.Text.{split, split_onto, count_byte}
use google_find_my_tools_go.Decimal.{digit, digits_loop}
use google_find_my_tools_go.Float64.{
  Float64, format_fixed6, last_digits, round_even, magnitude, unit,
}
use google_find_my_tools_go.Json.{Value, null, number, text, array, from_list, to_list}
use google_find_my_tools_go.Maps.SavedPlaces.Entities.{
  Place, read_place, place_key, extract_place_id, parse_entity_list,
}
use google_find_my_tools_go.Maps.SavedPlaces.Entities.Places.{
  readable, onto, without_key, first_of_keys, parse_entity_list_firsts,
}

-- What a user has saved.
pub record Entry : Type 0 where
  pub name : List ℕ
  pub address : List ℕ
  pub lat : Float64
  pub lon : Float64
  pub notes : List ℕ

abbrev pub values : List Value → Value
values vs = array (from_list vs)

-- An entry of the answer: the address and the coordinates, the name, the notes.
abbrev pub entry_of : Entry → Value
entry_of e = values (
    null
    ∷ values (
        null
        ∷ null
        ∷ null
        ∷ null
        ∷ text e.address
        ∷ values (null ∷ null ∷ number e.lat ∷ number e.lon ∷ [])
        ∷ [])
    ∷ text e.name
    ∷ text e.notes
    ∷ [])

-- The answer: the entries stand in the ninth place of its first element.
abbrev pub answer_of : List Entry → List Value
answer_of es =
    values (null ∷ null ∷ null ∷ null ∷ null ∷ null ∷ null ∷ null ∷ values (map entry_of es) ∷ [])
    ∷ []

abbrev pub place_of : Entry → Place
place_of e = record {
  id = [];
  name = e.name;
  address = e.address;
  lat = e.lat;
  lon = e.lon;
  notes = e.notes;
  created_at = none;
}

-- A name that is not empty and has at most three parts between its commas.
abbrev pub is_shown : Entry → Bool
is_shown e = not (is_empty e.name) && leb (length (split b',' e.name)) 3

abbrev pub shown_places : List Entry → List Place
shown_places [] = []
shown_places (e ∷ es) = let rest = shown_places es in if is_shown e then place_of e ∷ rest else rest

-- The same name, and coordinates that are written alike to six decimals.
abbrev pub same_spot : Place → Place → Bool
same_spot p q =
    bytes_eq p.name q.name
    && bytes_eq (format_fixed6 p.lat) (format_fixed6 q.lat)
    && bytes_eq (format_fixed6 p.lon) (format_fixed6 q.lon)

abbrev pub elsewhere : Place → List Place → List Place
elsewhere p [] = []
elsewhere p (q ∷ ps) = let rest = elsewhere p ps in if same_spot p q then rest else q ∷ rest

-- The first place of each name and position.
abbrev pub first_spots : List Place → List Place
first_spots [] = []
first_spots (p ∷ ps) = p ∷ elsewhere p (first_spots ps)

-- A number is written with no underscore, which is 95.
abbrev Clean : List ℕ → Type 0
Clean = All (λ c. c < 95)

Clean-if : (t : Bool) (xs ys : List ℕ) → Clean xs → Clean ys → Clean (if t then xs else ys)
Clean-if true xs ys h k = h
Clean-if false xs ys h k = k

digit-lt : (n : ℕ) → digit (n % 10) < 95
digit-lt n = ground arith

first_digit-lt : (n : ℕ) → ltb n 10 ≡ true → n + 48 < 95
first_digit-lt n h = ground arith

digits_loop-Clean : (fuel n : ℕ) (out : List ℕ) → Clean out → Clean (digits_loop fuel 10 n out)
unfolding digits_loop
digits_loop-Clean zero n out h = h
digits_loop-Clean (suc fuel) n out h = elim (Bool-cases (ltb n 10)) [
  | inl small ↦ rw small (first_digit-lt n small, h)
  | inr big ↦ rw big (digits_loop-Clean fuel (n / 10) (digit (n % 10) ∷ out) (digit-lt n, h))
]

last_digits-Clean : (k n : ℕ) (out : List ℕ) → Clean out → Clean (last_digits k n out)
last_digits-Clean zero n out h = h
last_digits-Clean (suc k) n out h =
    last_digits-Clean k (n / 10) ((n % 10 + b'0') ∷ out) (omega arith, h)

format_fixed6-Clean : (x : Float64) → Clean (format_fixed6 x)
unfolding format_fixed6
format_fixed6-Clean x =
    let n = round_even (magnitude x * 10 ^ 6) unit in
    All-append (λ c. c < 95) _ _
      (Clean-if x.negative _ _ (omega arith, digits_loop-Clean 309 (n / 10 ^ 6) [] tt)
        (digits_loop-Clean 309 (n / 10 ^ 6) [] tt))
      (omega arith, last_digits-Clean 6 (n % 10 ^ 6) [] tt)

no_underscore : (s t : List ℕ) → Clean (s ++ b'_' ∷ t) → ⊥
no_underscore [] t (h, hs) = omega (arith, h)
no_underscore (c ∷ s) t (h, hs) = no_underscore s t hs

-- Where the last underscore stands is plain.
last_part :
    (a b c d : List ℕ) → Clean b → Clean d → a ++ b'_' ∷ b ≡ c ++ b'_' ∷ d → (a ≡ c) × (b ≡ d)
last_part [] b [] d hb hd e = (refl, ap (drop 1) e)
last_part [] b (x ∷ c) d hb hd e = absurd (no_underscore c d (subst Clean (ap (drop 1) e) hb))
last_part (x ∷ a) b [] d hb hd e = absurd (no_underscore a b (subst Clean (sym (ap (drop 1) e)) hd))
last_part (x ∷ a) b (y ∷ c) d hb hd e =
    let (same, rest) = last_part a b c d hb hd (ap (drop 1) e) in
    (ap₂ ◌∷◌ (ap (λ s. get_or s 0 0) e) same, rest)

both_or_neither : (s t : Bool) → (s ≡ true → t ≡ true) → (t ≡ true → s ≡ true) → s ≡ t
both_or_neither true t h k = sym (h refl)
both_or_neither false true h k = k refl
both_or_neither false false h k = refl

module _ (p q : Place) where
  abbrev SameSpot : Type 0
  SameSpot =
      (p.name ≡ q.name)
      × ((format_fixed6 p.lat ≡ format_fixed6 q.lat) × (format_fixed6 p.lon ≡ format_fixed6 q.lon))

  place_key-SameSpot : place_key p ≡ place_key q → SameSpot
  unfolding place_key
  place_key-SameSpot e =
      let (front, lon) =
        last_part (p.name ++ b'_' ∷ format_fixed6 p.lat) (format_fixed6 p.lon)
          (q.name ++ b'_' ∷ format_fixed6 q.lat) (format_fixed6 q.lon) (format_fixed6-Clean p.lon)
          (format_fixed6-Clean q.lon)
          (append_assoc p.name (b'_' ∷ format_fixed6 p.lat) (b'_' ∷ format_fixed6 p.lon)
            ∙ e
            ∙ sym
                (append_assoc q.name (b'_' ∷ format_fixed6 q.lat) (b'_' ∷ format_fixed6 q.lon))) in
      let (name, lat) =
        last_part p.name (format_fixed6 p.lat) q.name (format_fixed6 q.lat)
          (format_fixed6-Clean p.lat) (format_fixed6-Clean q.lat) front in
      (name, (lat, lon))

  SameSpot-place_key : SameSpot → place_key p ≡ place_key q
  unfolding place_key
  SameSpot-place_key (name, (lat, lon)) =
      ap₂ (λ s t. s ++ (b'_' ∷ t)) name (ap₂ (λ s t. s ++ (b'_' ∷ t)) lat lon)

  same_spot-SameSpot : same_spot p q ≡ true → SameSpot
  same_spot-SameSpot h = ground (
    arith,
    bytes_eq_iff p.name q.name,
    bytes_eq_iff (format_fixed6 p.lat) (format_fixed6 q.lat),
    bytes_eq_iff (format_fixed6 p.lon) (format_fixed6 q.lon),
  )

  SameSpot-same_spot : SameSpot → same_spot p q ≡ true
  SameSpot-same_spot (name, (lat, lon)) =
      rw
        (
          (bytes_eq_iff p.name q.name).1 name,
          (bytes_eq_iff (format_fixed6 p.lat) (format_fixed6 q.lat)).1 lat,
          (bytes_eq_iff (format_fixed6 p.lon) (format_fixed6 q.lon)).1 lon,
        )
        refl

  bytes_eq-place_key : bytes_eq (place_key p) (place_key q) ≡ same_spot p q
  bytes_eq-place_key =
      both_or_neither _ _
        (λ h.
          SameSpot-same_spot (place_key-SameSpot ((bytes_eq_iff (place_key p) (place_key q)).0 h)))
        (λ h.
          (bytes_eq_iff (place_key p) (place_key q)).1 (SameSpot-place_key (same_spot-SameSpot h)))

without_key-elsewhere :
    (p : Place) (ps : List Place) → without_key (place_key p) ps ≡ elsewhere p ps
unfolding without_key
without_key-elsewhere p [] = refl
without_key-elsewhere p (q ∷ ps) = rw (bytes_eq-place_key p q, without_key-elsewhere p ps) refl

first_of_keys-first_spots : (ps : List Place) → first_of_keys ps ≡ first_spots ps
unfolding first_of_keys
first_of_keys-first_spots [] = refl
first_of_keys-first_spots (p ∷ ps) =
    ap (λ t. p ∷ t)
      (without_key-elsewhere p (first_of_keys ps) ∙ ap (elsewhere p) (first_of_keys-first_spots ps))

length-split_onto : (part s : List ℕ) → length (split_onto b',' part s) ≡ suc (count_byte b',' s)
unfolding split_onto count_byte
length-split_onto part [] = refl
length-split_onto part (c ∷ s) = elim (Bool-cases (c == b',')) [
  | inl comma ↦ rw comma (ap suc (length-split_onto [] s) ∙ omega arith)
  | inr other ↦ rw other (length-split_onto (part ++ c ∷ []) s ∙ omega arith)
]

read_place-entry_of :
    (e : Entry) → read_place (entry_of e) ≡ (if is_shown e then some (place_of e) else none)
unfolding read_place extract_place_id
read_place-entry_of e = ground (arith, length-split_onto [] e.name)

shown_of :
    (t : Bool) (p : Place) (ps : List Place)
    → onto (if t then some p else none) ps ≡ (if t then p ∷ ps else ps)
shown_of true p ps = refl
shown_of false p ps = refl

readable-entries : (es : List Entry) → readable (map entry_of es) ≡ shown_places es
unfolding readable
readable-entries [] = refl
readable-entries (e ∷ es) =
    ap₂ onto (read_place-entry_of e) (readable-entries es)
    ∙ shown_of (is_shown e) (place_of e) (shown_places es)

to_list-from_list : (vs : List Value) → to_list (from_list vs) ≡ vs
to_list-from_list [] = refl
to_list-from_list (v ∷ vs) = ap (λ t. v ∷ t) (to_list-from_list vs)

-- Of an answer that is written for entries with a name, an address, coordinates and notes,
-- parseEntityList returns the entries whose name is not empty and has at most three parts between
-- its commas, with these fields as they were written, in order; of several with the same name and
-- coordinates that %.6f prints alike only the first.
pub parse_entity_list-answer_of :
    (es : List Entry) → (parse_entity_list (answer_of es)).0 ≡ first_spots (shown_places es)
parse_entity_list-answer_of es =
    parse_entity_list_firsts (answer_of es)
    ∙ ap (λ vs. first_of_keys (readable vs)) (to_list-from_list (map entry_of es))
    ∙ ap first_of_keys (readable-entries es)
    ∙ first_of_keys-first_spots (shown_places es)
