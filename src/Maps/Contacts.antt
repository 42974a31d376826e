-- ===== src/Maps/Contacts.antt =====
-- parseContacts, extractContact and toFloat of pkg/googlefindmy/maps/maps.go on an answer that
-- encoding/json has decoded. strconv.ParseFloat is a parameter.
use google_find_my_tools_go.Prelude.{
  ℕ, zero, suc, ◌^◌, ◌*◌, Bool, true, false, not, ◌&&◌, ◌||◌, List, [], ◌∷◌, ◌++◌, Option, none,
  some, length, leb, ltb, if◌then◌else◌,
}
use google_find_my_tools_go.Bytes.{codes, bytes_eq, is_empty}
use google_find_my_tools_go.Text.{trim_space}
use google_find_my_tools_go.Float64.{
  Double, finite, zero_double, double_to_int64, double_more_than, int64_thousandth,
}
use google_find_my_tools_go.Json.{Value, number, text, as_array, as_text, at}
pub mod Form

pub data ContactType : Type 0 where
  maps_shared maps_self : ContactType

-- The timestamp is the pattern of an int64.
pub record Contact : Type 0 where
  pub id : List ℕ
  pub name : List ℕ
  pub type_ : ContactType
  pub lat : Double
  pub lon : Double
  pub timestamp : ℕ
  pub accuracy : Double

-- strconv.ParseFloat with 64 bits: `none` on an error.
abbrev pub ParseFloat : Type 0
ParseFloat = List ℕ → Option Double

abbrev pub double_or_zero : Option Double → Double
double_or_zero none = zero_double
double_or_zero (some x) = x

-- The number of toFloat, 0 where its second result is false. JSON gives no int and no int64.
unfoldable pub to_float : ParseFloat → Value → Double
to_float parse_float (number x) = finite x
to_float parse_float (text s) = double_or_zero (parse_float (trim_space s))
to_float parse_float _ = zero_double

-- Milliseconds in seconds, and what is small enough for seconds as it is.
unfoldable pub to_seconds : Double → ℕ
unfolding double_to_int64 int64_thousandth
to_seconds ts =
    if double_more_than ts (10 ^ 11)
    then int64_thousandth (double_to_int64 ts)
    else double_to_int64 ts

-- `if s, ok := v.(string); ok { x = s }`
abbrev pub text_or : List ℕ → Option (List ℕ) → List ℕ
text_or x none = x
text_or x (some s) = s

abbrev pub no_contact : Contact
no_contact = record {
  id = [];
  name = [];
  type_ = maps_shared;
  lat = zero_double;
  lon = zero_double;
  timestamp = 0;
  accuracy = zero_double;
}

-- The steps of extractContact, each on the array at its index, if that is one.
abbrev pub basic_info : Option (List Value) → Contact → Contact
basic_info none c = c
basic_info (some info) c =
    if leb 4 (length info)
    then record c {
      id = text_or c.id (as_text (at info 0));
      name = text_or c.name (as_text (at info 3));
    }
    else c

abbrev pub no_name : List ℕ → Bool
no_name name = is_empty name || bytes_eq name (codes "Unknown")

abbrev pub short_profile : Option (List Value) → Contact → Contact
short_profile none c = c
short_profile (some sp) c =
    if leb 4 (length sp)
    then record c {
      id = if is_empty c.id then text_or c.id (as_text (at sp 0)) else c.id;
      name = if no_name c.name then text_or c.name (as_text (at sp 2)) else c.name;
    }
    else c

abbrev pub items_of : Option (List Value) → List Value
items_of none = []
items_of (some items) = items

-- The entries of the shared contacts: those of data[0].
abbrev pub shared_items : List Value → List Value
shared_items answer = if ltb 0 (length answer) then items_of (as_array (at answer 0)) else []

module _ (parse_float : ParseFloat) where
  abbrev pub coordinates : Option (List Value) → Contact → Contact
  coordinates none c = c
  coordinates (some coords) c =
      if leb 3 (length coords)
      then record c {
        lon = to_float parse_float (at coords 1);
        lat = to_float parse_float (at coords 2);
      }
      else c

  abbrev pub location_info : Option (List Value) → Contact → Contact
  location_info none c = c
  location_info (some info) c =
      if leb 4 (length info)
      then record (coordinates (as_array (at info 1)) c) {
        timestamp = to_seconds (to_float parse_float (at info 2));
        accuracy = to_float parse_float (at info 3);
      }
      else c

  unfoldable pub extract_contact : List Value → Contact
  unfolding to_float to_seconds
  extract_contact contact =
      let named = basic_info (as_array (at contact 0)) no_contact in
      let profiled =
        if ltb 6 (length contact) then short_profile (as_array (at contact 6)) named else named in
      location_info (as_array (at contact 1)) profiled

  abbrev pub kept_contact : Contact → List Contact → List Contact
  kept_contact c rest = if not (is_empty c.id) then c ∷ rest else rest

  abbrev pub contact_item : Option (List Value) → List Contact → List Contact
  contact_item none rest = rest
  contact_item (some contact) rest =
      if ltb (length contact) 7 then rest else kept_contact (extract_contact contact) rest

  unfoldable pub shared_contacts : List Value → List Contact
  unfolding extract_contact
  shared_contacts [] = []
  shared_contacts (item ∷ items) = contact_item (as_array item) (shared_contacts items)

  abbrev pub own_id_of : Option (List ℕ) → List ℕ
  own_id_of none = codes "self"
  own_id_of (some id) = if not (is_empty id) then id else codes "self"

  abbrev pub own_contact : List ℕ → List Value → Option (List Value) → List Contact
  own_contact id info none = []
  own_contact id info (some coords) =
      if leb 3 (length coords)
      then (record {
        id = id;
        name = codes "You";
        type_ = maps_self;
        lat = to_float parse_float (at coords 2);
        lon = to_float parse_float (at coords 1);
        timestamp = to_seconds (to_float parse_float (at info 2));
        accuracy = to_float parse_float (at info 3);
      })
        ∷ []
      else []

  abbrev pub own_info : List ℕ → Option (List Value) → List Contact
  own_info id none = []
  own_info id (some info) =
      if leb 4 (length info) then own_contact id info (as_array (at info 1)) else []

  abbrev pub own_location : List ℕ → Option (List Value) → List Contact
  own_location id none = []
  own_location id (some own) = if leb 2 (length own) then own_info id (as_array (at own 1)) else []

  unfoldable pub parse_contacts : List Value → List Contact
  unfolding shared_contacts to_float to_seconds
  parse_contacts answer =
      let own_id =
        if ltb 7 (length answer) then own_id_of (as_text (at answer 7)) else codes "self" in
      let own =
        if ltb 9 (length answer) then own_location own_id (as_array (at answer 9)) else [] in
      shared_contacts (shared_items answer) ++ own
