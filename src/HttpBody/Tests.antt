-- ===== src/HttpBody/Tests.antt =====
-- Redaction of concrete bodies.
use google_find_my_tools_go.Prelude.{ℕ, ◌≡◌, refl, List}
use google_find_my_tools_go.Bytes.{codes, has_prefix, bytes_eq}
use google_find_my_tools_go.HttpBody.{redact, safe, mask, find_key, is_separator}
use google_find_my_tools_go.HttpBody.Fields.{split, AllHidden, safe-AllHidden}

abbrev answer : List ℕ
answer = codes "SID=abc&SSID=def x=1"

hides : redact answer ≡ codes "SID=***&SSID=*** x=1"
unfolding redact mask find_key has_prefix bytes_eq is_separator
hides = refl

safe-AllHidden_example : AllHidden (split (safe answer))
safe-AllHidden_example = safe-AllHidden answer
