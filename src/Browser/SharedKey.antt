-- ===== src/Browser/SharedKey.antt =====
-- extractSharedKey of pkg/googlefindmy/browser/oauth.go, over encoding/json.
use google_find_my_tools_go.Prelude.{
  ℕ, zero, suc, ◌+◌, Bool, true, false, not, ◌||◌, List, [], ◌∷◌, Option, none, some, ◌==◌,
  if◌then◌else◌, Result, ok, err, ◌>>=◌, wrap_err,
}
use google_find_my_tools_go.GoErrors.{GoError}
use google_find_my_tools_go.Bytes.{codes, bytes_eq}
use google_find_my_tools_go.Decimal.{format_decimal}
use google_find_my_tools_go.Float64.{Float64, below_zero, more_than, is_whole, whole, greater}
use google_find_my_tools_go.Json.{Value, Members, as_number, as_object, find_member}
pub mod Newest
pub mod Bytes

-- The domains of the vault with their entries.
abbrev pub Vault : Type 0
Vault = List (List ℕ × List Members)

-- json.Unmarshal into a string and into the map of the vault, in which no key comes twice.
pub record VaultJson : Type 0 where
  pub unmarshal_text : List ℕ → Result GoError (List ℕ)
  pub unmarshal_vault : List ℕ → Result GoError Vault

-- "unquote vault keys", "parse vault keys", "no finder_hw key", "no key data", and a byte of the
-- key that is missing or is none.
pub data KeyError : Type 0 where
  unquote_vault_keys parse_vault_keys : GoError → KeyError
  no_finder_key no_key_data : KeyError
  missing_key_byte invalid_key_byte : ℕ → KeyError

abbrev pub is_quoted : List ℕ → Bool
is_quoted [] = false
is_quoted (b ∷ s) = b == b'"'

-- The payload, out of the string that it may stand in.
unfoldable pub unquoted : VaultJson → List ℕ → Result KeyError (List ℕ)
unquoted json payload =
    if is_quoted payload
    then wrap_err unquote_vault_keys (json.unmarshal_text payload)
    else ok payload

unfoldable pub entries_of : List ℕ → Vault → List Members
entries_of domain [] = []
entries_of domain ((d, entries) ∷ vault) =
    let rest = entries_of domain vault in if bytes_eq domain d then entries else rest

-- `x, ok := entry[key].(float64)`
abbrev pub number_in : Option Value → Option Float64
number_in none = none
number_in (some v) = as_number v

abbrev pub epoch_of : Members → Option Float64
epoch_of entry = number_in (find_member (codes "epoch") entry)

-- bestEpoch, `none` for minus infinity, and entry.
pub record Best : Type 0 where
  pub epoch : Option Float64
  pub entry : Members

abbrev pub is_newer : Float64 → Option Float64 → Bool
is_newer epoch none = true
is_newer epoch (some best) = greater epoch best

-- A round of the loop over the entries.
abbrev pub best_round : Best → Members → Option Float64 → Best
best_round best candidate none = best
best_round best candidate (some epoch) =
    if is_newer epoch best.epoch then record { epoch = some epoch; entry = candidate } else best

unfoldable pub best_loop : Best → List Members → Best
best_loop best [] = best
best_loop best (candidate ∷ entries) =
    best_loop (best_round best candidate (epoch_of candidate)) entries

abbrev pub object_in : Option Value → Option Members
object_in none = none
object_in (some v) = as_object v

abbrev pub members_or_error : Option Members → Result KeyError Members
members_or_error none = err no_key_data
members_or_error (some ms) = ok ms

-- math.Trunc(f) != f || f < 0 || f > 255
abbrev pub is_no_byte : Float64 → Bool
is_no_byte f = not (is_whole f) || below_zero f || more_than f 255

abbrev pub number_or_error : ℕ → Option Float64 → Result KeyError ℕ
number_or_error i none = err (invalid_key_byte i)
number_or_error i (some f) = if is_no_byte f then err (invalid_key_byte i) else ok (whole f)

abbrev pub key_byte : ℕ → Option Value → Result KeyError ℕ
key_byte i none = err (missing_key_byte i)
key_byte i (some raw) = number_or_error i (as_number raw)

-- The bytes of the key from the i-th, `n` of them.
unfoldable pub key_bytes : ℕ → ℕ → Members → Result KeyError (List ℕ)
key_bytes zero i ms = ok []
key_bytes (suc n) i ms = key_byte i (find_member (format_decimal i) ms) >>= λ b.
    key_bytes n (suc i) ms >>= λ rest. ok (b ∷ rest)

-- The key in the newest of the entries, of which there is one at least.
unfoldable pub key_of_entries : List Members → Result KeyError (List ℕ)
key_of_entries [] = err no_finder_key
key_of_entries (first ∷ entries) =
    members_or_error (
      object_in (
        find_member (codes "key")
          (best_loop (record { epoch = none; entry = first }) (first ∷ entries)).entry))
    >>= key_bytes 32 0

unfoldable pub extract_shared_key : VaultJson → List ℕ → Result KeyError (List ℕ)
extract_shared_key json vault_keys = unquoted json vault_keys >>= λ payload.
    wrap_err parse_vault_keys (json.unmarshal_vault payload) >>= λ vault.
    key_of_entries (entries_of (codes "finder_hw") vault)
