-- ===== src/HttpBody.antt =====
-- pkg/googlefindmy/internal/httpbody/httpbody.go: response bodies in error messages. A string is
-- the list of its bytes.
use google_find_my_tools_go.Prelude.{
  ℕ, Bool, true, false, ◌||◌, List, [], ◌∷◌, ◌++◌, length, take, leb, ◌==◌,
}
use google_find_my_tools_go.Prelude.{Option, none, some, if◌then◌else◌}
use google_find_my_tools_go.Bytes.{codes, has_prefix}
pub mod Fields
mod Tests

abbrev pub max_len : ℕ
max_len = 200

abbrev pub sensitive_keys : List (List ℕ)
sensitive_keys =
    codes "Token="
    ∷ codes "Auth="
    ∷ codes "Email="
    ∷ codes "SID="
    ∷ codes "HSID="
    ∷ codes "SSID="
    ∷ codes "SAPISID="
    ∷ codes "oauth_token="
    ∷ codes "EncryptedPasswd="
    ∷ []

-- The three bytes of "…".
abbrev pub ellipsis : List ℕ
ellipsis = 0xe2 ∷ 0x80 ∷ 0xa6 ∷ []

unfoldable pub truncate : List ℕ → List ℕ
truncate body = if leb (length body) max_len then body else take max_len body ++ ellipsis

-- the bytes of "&\n\r \t"
unfoldable pub is_separator : ℕ → Bool
is_separator b = b == 38 || b == 10 || b == 13 || b == 32 || b == 9

-- The first key that the field begins with.
unfoldable pub find_key : List ℕ → List (List ℕ) → Option (List ℕ)
find_key field [] = none
find_key field (k ∷ ks) =
    let rest = find_key field ks in if has_prefix field k then some k else rest

abbrev pub stars : List ℕ
stars = codes "***"

abbrev pub mask_as : List ℕ → Option (List ℕ) → List ℕ
mask_as field none = field
mask_as field (some key) = key ++ stars

-- The loop over the keys, which stops at the first that fits.
unfoldable pub mask : List ℕ → List ℕ
mask field = mask_as field (find_key field sensitive_keys)

-- The loop of Redact, a byte at a time: `field` has the bytes since the last separator.
unfoldable pub redact_loop : List ℕ → List ℕ → List ℕ
redact_loop field [] = mask field
redact_loop field (b ∷ s) =
    let next_field = redact_loop [] s in
    let same_field = redact_loop (field ++ b ∷ []) s in
    if is_separator b then mask field ++ b ∷ next_field else same_field

unfoldable pub redact : List ℕ → List ℕ
unfolding redact_loop
redact s = redact_loop [] s

unfoldable pub safe : List ℕ → List ℕ
safe body = redact (truncate body)
