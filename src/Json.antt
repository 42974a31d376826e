-- ===== src/Json.antt =====
-- What encoding/json decodes into a value of type any, and the type assertions of the source.
use google_find_my_tools_go.Prelude.{ℕ, zero, suc, Bool, List, [], ◌∷◌, Option, none, some}
use google_find_my_tools_go.Prelude.{if◌then◌else◌}
use google_find_my_tools_go.Bytes.{bytes_eq}
use google_find_my_tools_go.Float64.{Float64, zero_float}

mutual
  pub data Value : Type 0 where
    null : Value
    boolean : Bool → Value
    number : Float64 → Value
    text : List ℕ → Value
    array : Items → Value
    object : Members → Value

  pub data Items : Type 0 where
    nil : Items
    cons : Value → Items → Items

  pub data Members : Type 0 where
    end : Members
    member : List ℕ → Value → Members → Members

-- A value of type []any as a list.
abbrev pub to_list : Items → List Value
to_list nil = []
to_list (cons v vs) = v ∷ to_list vs

abbrev pub from_list : List Value → Items
from_list [] = nil
from_list (v ∷ vs) = cons v (from_list vs)

-- v.([]any), v.(string) and v.(float64): `none` if the assertion does not hold.
abbrev pub as_array : Value → Option (List Value)
as_array (array vs) = some (to_list vs)
as_array _ = none

abbrev pub as_text : Value → Option (List ℕ)
as_text (text s) = some s
as_text _ = none

abbrev pub as_number : Value → Option Float64
as_number (number x) = some x
as_number _ = none

-- `s, _ := v.(string)` and the same for the others: the zero value if the assertion does not hold.
abbrev pub text_or_empty : Value → List ℕ
text_or_empty (text s) = s
text_or_empty _ = []

abbrev pub number_or_zero : Value → Float64
number_or_zero (number x) = x
number_or_zero _ = zero_float

abbrev pub array_or_nil : Value → List Value
array_or_nil (array vs) = to_list vs
array_or_nil _ = []

-- vs[i] where i is in range: `null` stands for no value of the program.
abbrev pub at : List Value → ℕ → Value
at [] i = null
at (v ∷ vs) zero = v
at (v ∷ vs) (suc i) = at vs i

-- v.(map[string]any) and the value of a key in it, which is the last one that is written.
abbrev pub as_object : Value → Option Members
as_object (object ms) = some ms
as_object _ = none

abbrev last_or : Option Value → Option Value → Option Value
last_or (some v) w = some v
last_or none w = w

unfoldable pub find_member : List ℕ → Members → Option Value
find_member key end = none
find_member key (member k v ms) =
    last_or (find_member key ms) (if bytes_eq key k then some v else none)
