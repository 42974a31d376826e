-- ===== src/Maps/SavedPlaces/Tests.antt =====
-- The theorems of the saved places at concrete inputs, and runs of their functions.
use google_find_my_tools_go.Prelude.{
  ℕ, ◌+◌, ◌%◌, ◌≡◌, refl, Bool, true, false, List, [], ◌∷◌, ◌++◌, Option, none, some, ok, err,
  ◌>>=◌, ◌>>◌, fail_if, length, ◌==◌, if◌then◌else◌,
}
use google_find_my_tools_go.Bytes.{codes, bytes_eq, has_prefix}
use google_find_my_tools_go.Text.{
  trim_left, trim_right, trim_space, split, split_onto, cut, space_width, trim_loop, count_byte,
}
use google_find_my_tools_go.GoErrors.{net}
use google_find_my_tools_go.Decimal.{digits_loop}
use google_find_my_tools_go.Float64.{zero_float, Float64, format_fixed6}
use google_find_my_tools_go.Json.{Value, null, number, text, array, Items, from_list}
use google_find_my_tools_go.Http
use google_find_my_tools_go.Http.{Network}
use google_find_my_tools_go.Maps.SavedPlaces.Specs
use google_find_my_tools_go.Maps.SavedPlaces.Specs.{
  ListSpec, UrlPath, parse_list_specs, is_nil, no_list_id, no_specs,
}
use google_find_my_tools_go.Maps.SavedPlaces.Specs.Groups.{read_entries, group}
use google_find_my_tools_go.Maps.SavedPlaces.Specs.Grouping.{parse_list_specs_groups}
use google_find_my_tools_go.Maps.SavedPlaces.Entities
use google_find_my_tools_go.Maps.SavedPlaces.Entities.Rendered.{
  Entry, answer_of, first_spots, shown_places, parse_entity_list-answer_of,
}
use google_find_my_tools_go.Maps.SavedPlaces.Fetch
use google_find_my_tools_go.Maps.SavedPlaces.Fetch.Outcome.{IsSplitBy, fetch_lists-parse_list_specs}
use google_find_my_tools_go.Actions.{return}
use google_find_my_tools_go.Maps.SavedPlaces.Discovery
use google_find_my_tools_go.Maps.SavedPlaces.Discovery.{Browser, discover_list_specs}
use google_find_my_tools_go.Maps.SavedPlaces.Discovery.Found.{Found, discover_list_specs-Found}

abbrev lines : List ℕ
lines =
    codes
      "# lists\n\nFood\thttps://www.google.com/maps/placelists/list/Ab_1?x\nAb_1\n Trips\t Zz-9 "

abbrev no_path : UrlPath
no_path value = none

abbrev specs_found : List ListSpec
specs_found =
    record { id = codes "Ab_1"; name = codes "Food" }
    ∷ record { id = codes "Zz-9"; name = codes "Trips" }
    ∷ []

parses : parse_list_specs no_path lines ≡ ok specs_found
unfolding parse_list_specs Specs.spec_lines Specs.spec_line Specs.read_line Specs.add_spec
    Specs.lookup Specs.name_at Specs.extract_list_id Specs.parse_list_input_line
    Specs.list_path_pattern Specs.list_data_pattern Specs.find_group Specs.path_group
    Specs.data_group Specs.id_run Specs.after_run Specs.is_id_byte Specs.raw_list_id_pattern
    Specs.all_id_bytes trim_space trim_left trim_right trim_loop space_width split_onto cut
    has_prefix bytes_eq
parses = refl

parse_list_specs_groups_example : parse_list_specs no_path lines ≡ (
    read_entries no_path 1 (split b'\n' lines) >>= λ es.
    fail_if (is_nil es) no_specs >> ok (group es))
parse_list_specs_groups_example = parse_list_specs_groups no_path lines

-- The second line is refused.
refuses : parse_list_specs no_path (codes "Ab_1\n!") ≡ err (no_list_id 2 (codes "!"))
unfolding parse_list_specs Specs.spec_lines Specs.spec_line Specs.read_line Specs.add_spec
    Specs.lookup Specs.name_at Specs.extract_list_id Specs.parse_list_input_line
    Specs.list_path_pattern Specs.list_data_pattern Specs.find_group Specs.path_group
    Specs.data_group Specs.id_run Specs.after_run Specs.is_id_byte Specs.raw_list_id_pattern
    Specs.all_id_bytes trim_space trim_left trim_right trim_loop space_width split_onto cut
    has_prefix bytes_eq
refuses = refl

-- A network that fails every other request and answers the others with an empty array; its state
-- counts the requests.
abbrev even : ℕ → Bool
even n = n % 2 == 0

abbrev flaky : Network ℕ
flaky = record {
  url_error = λ url. none;
  send = λ n request. (
    n + 1,
    if even n then err (net true) else ok (record { status = 200; body = ok (codes "[]") }),
  );
}

abbrev empty_array : List ℕ → Option (List Value)
empty_array bytes = some []

abbrev client : Fetch.Client
client = Fetch.new_client ((codes "SID", codes "s") ∷ [])

fetch_lists-parse_list_specs_example :
    IsSplitBy specs_found (Fetch.fetch_lists flaky empty_array client 0 specs_found).1
fetch_lists-parse_list_specs_example =
    fetch_lists-parse_list_specs flaky empty_array client no_path lines specs_found 0 parses

fetches : Fetch.fetch_lists flaky empty_array client 0 specs_found ≡ (
  2,
  record {
    lists = record { id = codes "Zz-9"; name = codes "Trips"; places = [] } ∷ [];
    errors =
        (
          codes "Ab_1",
          Fetch.fetch_list_error (codes "Ab_1") (Fetch.failed (Http.not_sent (net true))),
        )
        ∷ [];
  },
)
unfolding Fetch.fetch_lists Fetch.fetch_list Fetch.fetch_list_via_http Fetch.read_list
    Fetch.list_request Fetch.strip_hijack Fetch.behind_line Http.do_request
    Specs.raw_list_id_pattern Specs.all_id_bytes Specs.is_id_byte has_prefix bytes_eq
    Entities.parse_entity_list Entities.places_loop
fetches = refl

-- 1.5 and -0.25
abbrev one_and_half : Float64
one_and_half = record { negative = false; significand = 3; shift = 1073 }

abbrev minus_quarter : Float64
minus_quarter = record { negative = true; significand = 1; shift = 1072 }

fixed6 : format_fixed6 one_and_half ≡ codes "1.500000"
unfolding format_fixed6 digits_loop
fixed6 = refl

fixed6_negative : format_fixed6 minus_quarter ≡ codes "-0.250000"
unfolding format_fixed6 digits_loop
fixed6_negative = refl

abbrev coordinates : Value
coordinates = array (from_list (null ∷ null ∷ number one_and_half ∷ number minus_quarter ∷ []))

abbrev meta : Value
meta = array (from_list (null ∷ null ∷ null ∷ null ∷ text (codes "Main St") ∷ coordinates ∷ []))

abbrev ids : Items
ids = from_list (
    number one_and_half
    ∷ array (from_list (text (codes "no") ∷ text (codes "0x1:0x2") ∷ []))
    ∷ text (codes "other")
    ∷ [])

abbrev cafe : Value
cafe = array (
    from_list (
      null
      ∷ meta
      ∷ text (codes "Cafe")
      ∷ text (codes "nice")
      ∷ null
      ∷ null
      ∷ null
      ∷ array ids
      ∷ []))

-- The place twice, and an entry without coordinates.
abbrev answer : List Value
answer =
    null
    ∷ null
    ∷ null
    ∷ null
    ∷ text (codes "Food")
    ∷ null
    ∷ null
    ∷ null
    ∷ array
        (from_list (cafe ∷ array (from_list (null ∷ null ∷ text (codes "Bar") ∷ [])) ∷ cafe ∷ []))
    ∷ []

finds_id : Entities.first_id_string ids ≡ codes "0x1:0x2"
unfolding Entities.first_id_string Entities.looks_like_place_id Entities.all_place_id_bytes
    Entities.is_place_id_byte
finds_id = refl

-- A name with two commas, one with three, and the first one again at the same position.
abbrev saved : List Entry
saved =
    record {
      name = codes "A, B, C";
      address = codes "x";
      lat = zero_float;
      lon = zero_float;
      notes = [];
    }
    ∷ record {
      name = codes "a,b,c,d";
      address = [];
      lat = zero_float;
      lon = zero_float;
      notes = [];
    }
    ∷ record {
      name = codes "A, B, C";
      address = [];
      lat = zero_float;
      lon = zero_float;
      notes = [];
    }
    ∷ []

parse_entity_list-answer_of_example :
    (Entities.parse_entity_list (answer_of saved)).0 ≡ first_spots (shown_places saved)
parse_entity_list-answer_of_example = parse_entity_list-answer_of saved

one_shown : length (first_spots (shown_places saved)) ≡ 1
unfolding split_onto format_fixed6 digits_loop bytes_eq
one_shown = refl

one_place : length (Entities.parse_entity_list answer).0 ≡ 1
unfolding Entities.parse_entity_list Entities.places_loop Entities.read_place Entities.place_key
    Entities.has_key format_fixed6 digits_loop count_byte bytes_eq
one_place = refl

abbrev names_found : List ListSpec
names_found =
    record { id = codes "Food"; name = codes "Food" }
    ∷ record { id = codes "Trips"; name = codes "Trips" }
    ∷ []

-- A page that shows two lists; its state is the address.
abbrev page : Browser (List ℕ)
page = record {
  set_cookies = return tt;
  open_saved_lists = return tt;
  list_names = return (codes "Food" ∷ codes "Trips" ∷ []);
  list_links = return [];
  click_saved_list = λ name url. (codes "https://x/!2s" ++ (name ++ codes "!3e"), ok tt);
  location = λ url. (url, ok url);
  screenshot = λ url. (url, []);
}

discovers : discover_list_specs page no_path [] ≡ (codes "https://x/!2sTrips!3e", ok names_found)
unfolding Discovery.discover_list_specs Discovery.specs_of_names Discovery.names_loop
    Discovery.visit_list Discovery.with_screenshot Specs.extract_list_id Specs.list_path_pattern
    Specs.list_data_pattern Specs.find_group Specs.path_group Specs.data_group Specs.id_run
    Specs.after_run Specs.is_id_byte Specs.raw_list_id_pattern Specs.all_id_bytes trim_space
    trim_left trim_right trim_loop space_width has_prefix bytes_eq Entities.has_key
discovers = refl

discover_list_specs-Found_example : Found names_found
discover_list_specs-Found_example =
    discover_list_specs-Found page no_path [] (codes "https://x/!2sTrips!3e") names_found discovers
