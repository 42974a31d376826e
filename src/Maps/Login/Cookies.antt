-- ===== src/Maps/Login/Cookies.antt =====
-- The cookies that AuthenticateMaps of pkg/googlefindmy/maps/maps.go keeps of those of the browser.
use google_find_my_tools_go.Prelude.{
  ℕ, Bool, false, not, ◌&&◌, ◌||◌, List, [], ◌∷◌, Option, none, some, length, leb, if◌then◌else◌,
}
use google_find_my_tools_go.Bytes.{codes, bytes_eq, trim_prefix}
use google_find_my_tools_go.Text.{has_suffix}

pub record Cookie : Type 0 where
  pub name : List ℕ
  pub value : List ℕ
  pub domain : List ℕ

unfoldable pub is_google_domain : List ℕ → Bool
unfolding trim_prefix has_suffix
is_google_domain domain =
    let d = trim_prefix domain (codes ".") in
    bytes_eq d (codes "google.com") || has_suffix d (codes ".google.com")

unfoldable pub contains_google_domain : List ℕ → Bool
unfolding has_suffix
contains_google_domain domain = leb 11 (length domain) && has_suffix domain (codes ".google.com")

-- An exact google.com domain.
unfoldable pub is_exact : List ℕ → Bool
unfolding trim_prefix
is_exact domain = bytes_eq (trim_prefix domain (codes ".")) (codes "google.com")

unfoldable pub prefer_domain : List ℕ → List ℕ → Bool
prefer_domain candidate current = not (is_exact current && not (is_exact candidate))

abbrev pub essential_names : List (List ℕ)
essential_names =
    codes "SID"
    ∷ codes "HSID"
    ∷ codes "SSID"
    ∷ codes "APISID"
    ∷ codes "SAPISID"
    ∷ codes "__Secure-3PAPISID"
    ∷ codes "__Secure-1PAPISID"
    ∷ codes "NID"
    ∷ codes "SIDCC"
    ∷ codes "__Secure-3PSIDCC"
    ∷ codes "__Secure-1PSIDCC"
    ∷ codes "CONSENT"
    ∷ codes "AEC"
    ∷ codes "OGPC"
    ∷ codes "SEARCH_SAMESITE"
    ∷ []

unfoldable pub is_among : List ℕ → List (List ℕ) → Bool
is_among name [] = false
is_among name (n ∷ ns) = bytes_eq name n || is_among name ns

unfoldable pub is_essential_cookie : List ℕ → Bool
unfolding is_among
is_essential_cookie name = is_among name essential_names

-- A map from strings to strings: a new entry hides an old one with its key.
abbrev pub Table : Type 0
Table = List (List ℕ × List ℕ)

unfoldable pub lookup : List ℕ → Table → Option (List ℕ)
lookup key [] = none
lookup key ((k, v) ∷ t) = let rest = lookup key t in if bytes_eq key k then some v else rest

unfoldable pub insert : List ℕ → List ℕ → Table → Table
insert key value [] = (key, value) ∷ []
insert key value ((k, v) ∷ t) =
    let rest = insert key value t in if bytes_eq key k then (key, value) ∷ t else (k, v) ∷ rest

-- mapsCookies and cookieDomain.
pub record Chosen : Type 0 where
  pub values : Table
  pub domains : Table

abbrev pub chosen_none : Chosen
chosen_none = record { values = []; domains = [] }

-- A cookie of Google, or one with a name that matters.
unfoldable pub is_wanted : Cookie → Bool
unfolding contains_google_domain is_essential_cookie
is_wanted c = contains_google_domain c.domain || is_essential_cookie c.name

abbrev pub put_cookie : Cookie → Chosen → Chosen
put_cookie c st = record {
  values = insert c.name c.value st.values;
  domains = insert c.name c.domain st.domains;
}

abbrev pub keeps : Cookie → Option (List ℕ) → Bool
keeps c none = false
keeps c (some prev) = not (prefer_domain c.domain prev)

-- A round of the loop over the cookies.
unfoldable pub choose_cookie : Chosen → Cookie → Chosen
choose_cookie st c =
    if not (is_wanted c)
    then st
    else if keeps c (lookup c.name st.domains)
    then st
    else put_cookie c st

unfoldable pub choose_cookies : Chosen → List Cookie → Chosen
unfolding choose_cookie
choose_cookies st [] = st
choose_cookies st (c ∷ cs) = choose_cookies (choose_cookie st c) cs
