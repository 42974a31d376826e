-- ===== src/Browser/Tests.antt =====
-- The key of a vault with two epochs, in a payload that is a string, and the flow that asks for it.
use google_find_my_tools_go.Prelude.{
  ℕ, suc, ◌≡◌, refl, false, List, [], ◌∷◌, drop, replicate, ok, err, none, some, ◌↔◌, ◌==◌, leb,
  if◌then◌else◌, inl, arith,
}
use google_find_my_tools_go.Bytes.{codes, bytes_eq, has_prefix}
use google_find_my_tools_go.GoErrors.{message}
use google_find_my_tools_go.Hex.{encode_hex}
use google_find_my_tools_go.Decimal.{format_decimal, digits_loop}
use google_find_my_tools_go.Float64.{Float64, greater}
use google_find_my_tools_go.Json.{Members, number, object, end, member, find_member}
use google_find_my_tools_go.Browser.SharedKey.{
  VaultJson, unquoted, entries_of, best_loop, key_bytes, key_of_entries, extract_shared_key,
}
use google_find_my_tools_go.Chrome.Profile.{other_errno, System}
use google_find_my_tools_go.Browser.Flow.{Round, KeyPage, UnlockCodec, request_shared_key}
use google_find_my_tools_go.Browser.Flow.Ends.{HasEnded, request_shared_key_finishes}
use google_find_my_tools_go.Browser.Flow.Key.{IsKeyText, request_shared_key-IsKeyText}
use google_find_my_tools_go.Browser.Flow
use google_find_my_tools_go.Chrome.Profile
use google_find_my_tools_go.Text
use google_find_my_tools_go.Browser.SharedKey.Bytes.{IsSharedKey, extract_shared_key_iff}

abbrev float : ℕ → Float64
float n = record { negative = false; significand = n; shift = 1074 }

-- The bytes of a key under the numbers from i.
unfoldable key_object : ℕ → List ℕ → Members
key_object i [] = end
key_object i (b ∷ key) = member (format_decimal i) (number (float b)) (key_object (suc i) key)

abbrev entry : ℕ → List ℕ → Members
entry epoch key =
    member (codes "epoch") (number (float epoch))
      (member (codes "key") (object (key_object 0 key)) end)

abbrev key : List ℕ
key = 255 ∷ 7 ∷ replicate 30 9

-- The vault with an old key, this one, and another of the same epoch.
abbrev vault : List (List ℕ × List Members)
vault =
    (codes "other", [])
    ∷ (codes "finder_hw", entry 1 (replicate 32 0) ∷ entry 2 key ∷ entry 2 (replicate 32 1) ∷ [])
    ∷ []

abbrev json : VaultJson
json = record { unmarshal_text = λ s. ok (drop 1 s); unmarshal_vault = λ s. ok vault }

extracted : extract_shared_key json (codes "\"{}") ≡ ok key
unfolding extract_shared_key unquoted entries_of key_of_entries best_loop key_bytes key_object
    find_member greater bytes_eq format_decimal digits_loop
extracted = refl

extract_shared_key_iff_example :
    (extract_shared_key json (codes "\"{}") ≡ ok key) ↔ IsSharedKey json (codes "\"{}") key
extract_shared_key_iff_example = extract_shared_key_iff json (codes "\"{}") key

-- The location cannot be read at first, and the keys are there in the second round.
abbrev page : KeyPage
page = record {
  hook = none;
  navigate = λ url. none;
  sign_in = λ i. record {
    seen = if i == 0 then err (message "no page") else ok (codes "https://myaccount.google.com/");
    late = leb 5 i;
    context = none;
  };
  keys = λ i. record {
    seen = ok (false, (if i == 0 then codes "null" else codes "\"{}"));
    late = leb 5 i;
    context = none;
  };
}

abbrev system : System
system = record { read_lock = λ dir. none; hostname = none; kill = λ pid. other_errno }

abbrev unlock : UnlockCodec
unlock = record { marshal_unlock = ok (1 ∷ []); base64_raw_url = λ b. b }

abbrev shown : List ℕ
shown = encode_hex key

requested : request_shared_key system (codes "p") unlock page json 4 ≡ some (ok shown)
unfolding request_shared_key extract_shared_key Profile.check_profile_free
    Flow.build_security_domain_url Flow.poll Text.contains has_prefix bytes_eq unquoted
    key_of_entries entries_of find_member best_loop greater key_bytes key_object format_decimal
requested = refl

request_shared_key-IsKeyText_example : IsKeyText json page shown
request_shared_key-IsKeyText_example =
    request_shared_key-IsKeyText system (codes "p") unlock page json 4 shown requested

request_shared_key_finishes_example :
    HasEnded (request_shared_key system (codes "p") unlock page json 6)
request_shared_key_finishes_example =
    request_shared_key_finishes system (codes "p") unlock page json 6 5 5 (inl refl) (omega arith)
      (inl refl) (omega arith)
