-- ===== src/Maps/SavedPlaces/Entities.antt =====
-- parseEntityList of pkg/googlefindmy/maps/savedplaces/savedplaces.go, and the functions under it:
-- the places in an answer that encoding/json has decoded.
use google_find_my_tools_go.Prelude.{
  ℕ, zero, suc, ◌-◌, ◌*◌, ◌^◌, Bool, true, false, not, ◌&&◌, ◌||◌, List, [], ◌∷◌, ◌++◌,
}
use google_find_my_tools_go.Prelude.{Option, none, some, length, leb, ltb, ◌==◌, if◌then◌else◌}
use google_find_my_tools_go.Bytes.{codes, bytes_eq, is_empty}
use google_find_my_tools_go.Text.{count_byte}
use google_find_my_tools_go.Float64.{
  Float64, to_int64, is_int64, below_zero, at_least, format_fixed6,
}
use google_find_my_tools_go.Json.{
  Value, null, text, array, Items, nil, cons, as_array, as_text, as_number, text_or_empty,
  number_or_zero, array_or_nil, at,
}
pub mod Ids
pub mod Places
pub mod Rendered

-- A time of package time: Unix seconds (the pattern of an int64) and nanoseconds, in UTC.
pub record Time : Type 0 where
  pub seconds : ℕ
  pub nanos : ℕ

pub record Place : Type 0 where
  pub id : List ℕ
  pub name : List ℕ
  pub address : List ℕ
  pub lat : Float64
  pub lon : Float64
  pub notes : List ℕ
  pub created_at : Option Time

unfoldable pub is_place_id_byte : ℕ → Bool
is_place_id_byte r =
    leb b'0' r && leb r b'9'
    || leb b'a' r && leb r b'z'
    || leb b'A' r && leb r b'Z'
    || r == b'_'
    || r == b'-'
    || r == b':'

-- The loop over the runes of the string: a byte of a rune beyond ASCII is not in the list either.
unfoldable pub all_place_id_bytes : List ℕ → Bool
unfolding is_place_id_byte
all_place_id_bytes [] = true
all_place_id_bytes (r ∷ s) = is_place_id_byte r && all_place_id_bytes s

unfoldable pub looks_like_place_id : List ℕ → Bool
unfolding all_place_id_bytes
looks_like_place_id s =
    if ltb (length s) 4 || ltb 128 (length s) then false else all_place_id_bytes s

unfoldable pub first_id_string : Items → List ℕ
unfolding looks_like_place_id
first_id_string nil = []
first_id_string (cons (text s) vs) =
    let rest = first_id_string vs in if looks_like_place_id s then s else rest
first_id_string (cons (array xs) vs) =
    let inner = first_id_string xs in
    let rest = first_id_string vs in if not (is_empty inner) then inner else rest
first_id_string (cons _ vs) = first_id_string vs

abbrev pub id_in : Value → List ℕ
id_in (array xs) = first_id_string xs
id_in _ = []

unfoldable pub extract_place_id : List Value → List ℕ
unfolding first_id_string
extract_place_id place = if leb (length place) 7 then [] else id_in (at place 7)

-- The two parts of a timestamp, if they are what the checks want.
abbrev pub time_of : Option Float64 → Option Float64 → Option Time
time_of none nanos = none
time_of (some s) none = none
time_of (some s) (some n) =
    if not (is_int64 s) || not (is_int64 n) || below_zero n || at_least n (10 ^ 9)
    then none
    else some (record { seconds = to_int64 s; nanos = to_int64 n })

abbrev pub time_of_parts : Option (List Value) → Option Time
time_of_parts none = none
time_of_parts (some parts) =
    if ltb (length parts) 2 then none else time_of (as_number (at parts 0)) (as_number (at parts 1))

unfoldable pub parse_timestamp : Value → Option Time
parse_timestamp value = time_of_parts (as_array value)

-- The address in placeArr[1], and the latitude and the longitude, if they are there.
abbrev pub address_in : Option (List Value) → List ℕ
address_in none = []
address_in (some meta) = if leb 5 (length meta) then text_or_empty (at meta 4) else []

abbrev pub coords_of : Option (List Value) → Option (Float64 × Float64)
coords_of none = none
coords_of (some coords) =
    if leb 4 (length coords)
    then some (number_or_zero (at coords 2), number_or_zero (at coords 3))
    else none

abbrev pub coords_in : Option (List Value) → Option (Float64 × Float64)
coords_in none = none
coords_in (some meta) = if leb 6 (length meta) then coords_of (as_array (at meta 5)) else none

-- A place with a name and coordinates.
abbrev pub place_at : List Value → List ℕ → Option (Float64 × Float64) → Option Place
place_at place name none = none
place_at place name (some (lat, lon)) = some (record {
  id = extract_place_id place;
  name = name;
  address = address_in (as_array (at place 1));
  lat = lat;
  lon = lon;
  notes = if ltb 3 (length place) then text_or_empty (at place 3) else [];
  created_at = if ltb 9 (length place) then parse_timestamp (at place 9) else none;
})

abbrev pub name_in_place : List Value → List ℕ
name_in_place place = text_or_empty (at place 2)

-- A round of the loop up to the look at `seen`: `none` where it goes on with the next entry.
unfoldable pub read_place : Value → Option Place
unfolding extract_place_id parse_timestamp count_byte
read_place item =
    let place = array_or_nil item in
    let name = name_in_place place in
    if ltb (length place) 3 || is_empty name || ltb 2 (count_byte b',' name)
    then none
    else place_at place name (coords_in (as_array (at place 1)))

-- fmt.Sprintf("%s_%.6f_%.6f", name, lat, lon)
unfoldable pub place_key : Place → List ℕ
unfolding format_fixed6
place_key p = p.name ++ (b'_' ∷ (format_fixed6 p.lat ++ (b'_' ∷ format_fixed6 p.lon)))

-- seen[key]
unfoldable pub has_key : List ℕ → List (List ℕ) → Bool
has_key key [] = false
has_key key (k ∷ ks) = bytes_eq key k || has_key key ks

-- The end of a round, with the places that follow if the entry is left out and if it is kept.
abbrev pub place_round :
    List (List ℕ) → Option Place → List Place → (List ℕ → List Place) → List Place
place_round seen none next kept = next
place_round seen (some p) next kept =
    let key = place_key p in if has_key key seen then next else p ∷ kept key

-- The loop over the entries with its map `seen`: the places that it appends.
unfoldable pub places_loop : List (List ℕ) → List Value → List Place
unfolding read_place place_key has_key
places_loop seen [] = []
places_loop seen (item ∷ items) =
    place_round seen (read_place item) (places_loop seen items)
      (λ key. places_loop (key ∷ seen) items)

abbrev pub inner_array : List Value → Option (List Value) → List Value
inner_array whole none = whole
inner_array whole (some inner) = inner

-- data[0] in place of data, if it is an array.
abbrev pub unwrap_data : List Value → List Value
unwrap_data [] = []
unwrap_data (v ∷ vs) = inner_array (v ∷ vs) (as_array v)

-- data[8], the entries of the places.
abbrev pub place_items : List Value → List Value
place_items entries = if ltb 8 (length entries) then array_or_nil (at entries 8) else []

-- data[4], the name of the list.
abbrev pub list_name : List Value → List ℕ
list_name entries = if ltb 4 (length entries) then text_or_empty (at entries 4) else []

-- The places and the name of the list.
unfoldable pub parse_entity_list : List Value → List Place × List ℕ
unfolding places_loop
parse_entity_list decoded =
    let entries = unwrap_data decoded in (places_loop [] (place_items entries), list_name entries)
