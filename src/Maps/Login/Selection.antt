-- ===== src/Maps/Login/Selection.antt =====
-- Which cookie AuthenticateMaps keeps under a name.
use google_find_my_tools_go.Prelude.{
  ℕ, ◌≡◌, refl, ap, ◌∙◌, Bool, true, false, not, ◌&&◌, List, [], ◌∷◌, Option, none, some,
  if◌then◌else◌, arith, inl, inr, Bool-cases,
}
use google_find_my_tools_go.Bytes.{bytes_eq, bytes_eq_iff, bytes_eq_self}
use google_find_my_tools_go.Maps.Login.Wanted.{is_kept, is_wanted-is_kept}
use google_find_my_tools_go.Maps.Login.{
  Cookie, is_exact, prefer_domain, Table, lookup, insert, Chosen, chosen_none, is_wanted,
  put_cookie, keeps, choose_cookie, choose_cookies,
}

abbrev pub or_cookie : Option Cookie → Option Cookie → Option Cookie
or_cookie (some c) other = some c
or_cookie none other = other

or_cookie-none : (o : Option Cookie) → or_cookie o none ≡ o
or_cookie-none none = refl
or_cookie-none (some c) = refl

-- The last cookie that satisfies a test.
unfoldable pub last_of : (Cookie → Bool) → List Cookie → Option Cookie
last_of test [] = none
last_of test (c ∷ cs) = or_cookie (last_of test cs) (if test c then some c else none)

-- The cookies of a name that are kept, and those of them with the domain google.com.
unfoldable pub is_candidate : List ℕ → Cookie → Bool
is_candidate name c = is_kept c && bytes_eq name c.name

unfoldable pub is_exact_candidate : List ℕ → Cookie → Bool
unfolding is_candidate
is_exact_candidate name c = is_candidate name c && is_exact c.domain

-- The last one of google.com itself, or else the last one.
unfoldable pub best_cookie : List ℕ → List Cookie → Option Cookie
unfolding last_of is_exact_candidate is_candidate
best_cookie name cs =
    or_cookie (last_of (is_exact_candidate name) cs) (last_of (is_candidate name) cs)

abbrev pub value_of : Option Cookie → Option (List ℕ)
value_of none = none
value_of (some c) = some c.value

abbrev domain_of : Option Cookie → Option (List ℕ)
domain_of none = none
domain_of (some c) = some c.domain

lookup-insert :
    (key k v : List ℕ) (t : Table)
    → lookup key (insert k v t) ≡ (if bytes_eq key k then some v else lookup key t)
unfolding lookup insert
lookup-insert key k v [] = ground arith
lookup-insert key k v ((j, w) ∷ t) =
    ground
      (arith, bytes_eq_iff key k, bytes_eq_iff k j, bytes_eq_iff key j, lookup-insert key k v t)

module _ (name : List ℕ) where
  -- The maps hold the value and the domain of a cookie, or nothing, under the name.
  record Holds (st : Chosen) (o : Option Cookie) : Type 0 where
    value : lookup name st.values ≡ value_of o
    domain : lookup name st.domains ≡ domain_of o

  abbrev exact_held : Option Cookie → Bool
  exact_held none = false
  exact_held (some c) = is_exact c.domain

  -- What is held behind a round.
  abbrev next_held : Option Cookie → Cookie → Option Cookie
  next_held o c =
      if is_candidate name c
      then (if exact_held o && not (is_exact c.domain) then o else some c)
      else o

  abbrev held_at_end : Option Cookie → List Cookie → Option Cookie
  held_at_end o cs =
      or_cookie (last_of (is_exact_candidate name) cs)
        (if exact_held o then o else or_cookie (last_of (is_candidate name) cs) o)

  Holds-put :
      (st : Chosen) (o : Option Cookie) (c : Cookie)
      → Holds st o
      → Holds (put_cookie c st) (if bytes_eq name c.name then some c else o)
  Holds-put st o c h = record {
    value = ground (arith, lookup-insert name c.name c.value st.values, h.value);
    domain = ground (arith, lookup-insert name c.name c.domain st.domains, h.domain);
  }

  keeps-held :
      (o : Option Cookie) (c : Cookie)
      → keeps c (domain_of o) ≡ (exact_held o && not (is_exact c.domain))
  unfolding prefer_domain
  keeps-held none c = refl
  keeps-held (some d) c = ground arith

  Holds-if :
      (t : Bool) (st st' : Chosen) (o o' : Option Cookie)
      → Holds st o
      → Holds st' o'
      → Holds (if t then st else st') (if t then o else o')
  Holds-if true st st' o o' h k = h
  Holds-if false st st' o o' h k = k

  Holds-same :
      (st : Chosen) (o : Option Cookie) (c : Cookie)
      → bytes_eq name c.name ≡ true
      → Holds st o
      → Holds
          (if keeps c (lookup c.name st.domains) then st else put_cookie c st)
          (if exact_held o && not (is_exact c.domain) then o else some c)
  Holds-same st o c e h =
      rw (← (bytes_eq_iff name c.name).0 e, h.domain, keeps-held o c)
        (Holds-if (exact_held o && not (is_exact c.domain)) st _ o _ h (record {
          value = ground (arith, lookup-insert name name c.value st.values, bytes_eq_self name);
          domain = ground (arith, lookup-insert name name c.domain st.domains, bytes_eq_self name);
        }))

  Holds-other :
      (t : Bool) (st : Chosen) (o : Option Cookie) (c : Cookie)
      → bytes_eq name c.name ≡ false
      → Holds st o
      → Holds (if t then st else put_cookie c st) o
  Holds-other true st o c e h = h
  Holds-other false st o c e h = rw e at (Holds-put st o c h)

  Holds-choose :
      (st : Chosen) (o : Option Cookie) (c : Cookie)
      → Holds st o
      → Holds (choose_cookie st c) (next_held o c)
  unfolding choose_cookie is_candidate
  Holds-choose st o c h = elim (Bool-cases (is_wanted c)) [
    | inl wanted ↦ elim (Bool-cases (bytes_eq name c.name)) [
      | inl same ↦ rw (← is_wanted-is_kept c, wanted, same) (Holds-same st o c same h)
      | inr other ↦
          rw (← is_wanted-is_kept c, wanted, other)
            (Holds-other (keeps c (lookup c.name st.domains)) st o c other h)
    ]
    | inr unwanted ↦ rw (← is_wanted-is_kept c, unwanted) h
  ]

  held_at_end-next :
      (o : Option Cookie) (c : Cookie) (cs : List Cookie)
      → held_at_end (next_held o c) cs ≡ held_at_end o (c ∷ cs)
  unfolding last_of is_exact_candidate
  held_at_end-next none c cs = ground arith
  held_at_end-next (some d) c cs = ground arith

  held_at_end-nil : (o : Option Cookie) → o ≡ held_at_end o []
  unfolding last_of
  held_at_end-nil o = ground arith

  choose_cookies-held :
      (cs : List Cookie) (st : Chosen) (o : Option Cookie)
      → Holds st o
      → lookup name (choose_cookies st cs).values ≡ value_of (held_at_end o cs)
  unfolding choose_cookies
  choose_cookies-held [] st o h = h.value ∙ ap value_of (held_at_end-nil o)
  choose_cookies-held (c ∷ cs) st o h =
      choose_cookies-held cs (choose_cookie st c) (next_held o c) (Holds-choose st o c h)
      ∙ ap value_of (held_at_end-next o c cs)

  -- Of the cookies of a name whose domain ends in .google.com, or whose name is one of the 15
  -- essential ones, AuthenticateMaps keeps the value of the last one that has the domain google.com,
  -- with or without a dot in front, and if there is none the value of the last one of all. Other
  -- cookies are left out: those of other domains, and those of google.com with no dot in front.
  pub choose_cookies-best :
      (cs : List Cookie)
      → lookup name (choose_cookies chosen_none cs).values ≡ value_of (best_cookie name cs)
  unfolding best_cookie lookup
  choose_cookies-best cs =
      choose_cookies-held cs chosen_none none (record { value = refl; domain = refl })
      ∙ ap (λ o. value_of (or_cookie (last_of (is_exact_candidate name) cs) o)) (or_cookie-none _)
