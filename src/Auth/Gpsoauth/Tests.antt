-- ===== src/Auth/Gpsoauth/Tests.antt =====
-- The reading of answers at a concrete one.
use google_find_my_tools_go.Prelude.{◌≡◌, refl, [], ◌∷◌, ok, arith}
use google_find_my_tools_go.Bytes.{codes, bytes_eq}
use google_find_my_tools_go.Url.{Values, get_value}
use google_find_my_tools_go.Auth.Gpsoauth.{answer_value}
use google_find_my_tools_go.Auth.Gpsoauth.Answer.{render_lines, is_plain, answer_value-render_lines}

abbrev entries : Values
entries = (codes "SID", codes "a=b") ∷ (codes "Token", codes "aas_et/1") ∷ []

answer_value-render_lines_example :
    answer_value (codes "Token") (render_lines entries) ≡ ok (get_value (codes "Token") entries)
unfolding get_value bytes_eq is_plain
answer_value-render_lines_example =
    answer_value-render_lines entries (codes "Token") (ground arith) refl
