-- ===== src/Maps/Login/Wanted.antt =====
-- Which cookies of the browser AuthenticateMaps of pkg/googlefindmy/maps/maps.go keeps at all.
use google_find_my_tools_go.Prelude.{
  ℕ, suc, ◌-◌, ◌≤◌, ◌≡◌, ◌≢◌, refl, ap, arith, Bool, true, false, ◌&&◌, ◌||◌, List, [], ◌∷◌, ◌++◌,
  length, leb, dec_le, Bool-cases, inl, inr, ℕ_discrete, sym,
}
use google_find_my_tools_go.Bytes.{codes, bytes_eq, bytes_eq_iff}
use google_find_my_tools_go.Text.{has_suffix, split, split_onto}
use google_find_my_tools_go.Maps.Login.{
  Cookie, is_google_domain, contains_google_domain, is_among, essential_names, is_essential_cookie,
  is_wanted, Chosen, chosen_none, choose_cookie, choose_cookies,
}

-- What is left of a text when some of its first bytes are gone is another text.
abbrev ends_in : List ℕ → List ℕ → Bool
ends_in [] t = bytes_eq [] t
ends_in (b ∷ s) t = bytes_eq (b ∷ s) t || ends_in s t

abbrev is_one_of : List ℕ → List (List ℕ) → Bool
is_one_of name [] = false
is_one_of name (n ∷ ns) = bytes_eq name n || is_one_of name ns

-- A cookie of a domain below google.com, or with one of the names that matter. The domain
-- google.com itself, with no dot in front, is not among those domains.
unfoldable pub is_kept : Cookie → Bool
unfolding split_onto
is_kept c =
    ends_in c.domain (codes ".google.com")
    || is_one_of c.name (
        split b',' (
          codes
            "SID,HSID,SSID,APISID,SAPISID,__Secure-3PAPISID,__Secure-1PAPISID,NID,SIDCC,__Secure-3PSIDCC,__Secure-1PSIDCC,CONSENT,AEC,OGPC,SEARCH_SAMESITE"))

other_length : (s t : List ℕ) → length s ≢ length t → bytes_eq s t ≡ false
other_length s t n = elim (Bool-cases (bytes_eq s t)) [
  | inl e ↦ absurd (n (ap length ((bytes_eq_iff s t).0 e)))
  | inr e ↦ e
]

ends_in-has_suffix : (s t : List ℕ) → ends_in s t ≡ has_suffix s t
unfolding has_suffix bytes_eq
ends_in-has_suffix [] [] = refl
ends_in-has_suffix [] (c ∷ t) = ground arith
ends_in-has_suffix (b ∷ s) t = elim (dec_le (length t) (length s)) [
  | yes inside ↦
      rw (other_length (b ∷ s) t (longer inside), ends_in-has_suffix s t, one_less inside)
        (ground arith)
  | no outside ↦ rw (ends_in-has_suffix s t) (elim (ℕ_discrete (length t) (suc (length s))) [
    | yes whole ↦ rw (none_left whole) (ground arith)
    | no shorter ↦ rw (other_length (b ∷ s) t (λ e. shorter (sym e))) (ground arith)
  ])
]
  where
    longer : length t ≤ length s → suc (length s) ≢ length t
    longer h e = absurd (omega arith)

    one_less : length t ≤ length s → suc (length s) - length t ≡ suc (length s - length t)
    one_less h = omega arith

    none_left : length t ≡ suc (length s) → suc (length s) - length t ≡ 0
    none_left h = omega arith

is_one_of-is_among : (name : List ℕ) (ns : List (List ℕ)) → is_one_of name ns ≡ is_among name ns
unfolding is_among
is_one_of-is_among name [] = refl
is_one_of-is_among name (n ∷ ns) = ap (λ t. bytes_eq name n || t) (is_one_of-is_among name ns)

long_enough : (s t : List ℕ) → (leb (length t) (length s) && has_suffix s t) ≡ has_suffix s t
unfolding has_suffix
long_enough s t = ground arith

pub is_wanted-is_kept : (c : Cookie) → is_wanted c ≡ is_kept c
unfolding is_kept is_wanted contains_google_domain is_essential_cookie split_onto
is_wanted-is_kept c =
    rw
      (
        ends_in-has_suffix c.domain (codes ".google.com"),
        is_one_of-is_among c.name essential_names,
        long_enough c.domain (codes ".google.com"),
      )
      refl

skipped : (st : Chosen) (c : Cookie) → is_wanted c ≡ false → choose_cookie st c ≡ st
unfolding choose_cookie
skipped st c h = rw h refl

choose_cookies-skip :
    (c : Cookie) (before behind : List Cookie) (st : Chosen)
    → is_wanted c ≡ false
    → choose_cookies st (before ++ c ∷ behind) ≡ choose_cookies st (before ++ behind)
unfolding choose_cookies
choose_cookies-skip c [] behind st h = ap (λ t. choose_cookies t behind) (skipped st c h)
choose_cookies-skip c (d ∷ before) behind st h =
    choose_cookies-skip c before behind (choose_cookie st d) h

host_only-unwanted :
    (c : Cookie)
    → c.domain ≡ codes "google.com"
    → is_essential_cookie c.name ≡ false
    → is_wanted c ≡ false
unfolding is_wanted contains_google_domain
host_only-unwanted c domain name = rw (domain, name) refl

-- A cookie of the domain google.com, with no dot in front, is a cookie of Google for
-- isGoogleDomain, but AuthenticateMaps chooses, wherever it stands among the cookies of the browser,
-- as if it were not there, unless its name is one of the essential ones.
pub choose_cookies-host_only :
    (c : Cookie) (before behind : List Cookie)
    → c.domain ≡ codes "google.com"
    → is_essential_cookie c.name ≡ false
    → (is_google_domain c.domain ≡ true)
      × (choose_cookies chosen_none (before ++ c ∷ behind)
          ≡ choose_cookies chosen_none (before ++ behind))
unfolding is_google_domain bytes_eq
choose_cookies-host_only c before behind domain name = (
  rw domain refl,
  choose_cookies-skip c before behind chosen_none (host_only-unwanted c domain name),
)
