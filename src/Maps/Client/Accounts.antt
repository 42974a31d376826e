-- ===== src/Maps/Client/Accounts.antt =====
-- Which accounts callAPI tries, and what it remembers.
use google_find_my_tools_go.Prelude.{
  ℕ, ◌+◌, ◌<◌, ◌≡◌, refl, ap, List, [], ◌∷◌, ◌++◌, Option, none, some, ◌==◌, ltb, if◌then◌else◌,
  arith, Result, ok, err, All,
}
use google_find_my_tools_go.Http.{Network}
use google_find_my_tools_go.Json.{Value}
use google_find_my_tools_go.Maps.Client.{
  Client, auth_user_order, remember_auth_user, Json, TryError, try_auth_user, Called, tried,
  try_all, call_api,
}

-- A client that has remembered no account, or one of 0, 1 and 2.
abbrev pub IsValid : Client → Type 0
IsValid c = c.preferred_auth_user < 3

unfoldable pub count : ℕ → List ℕ → ℕ
count u [] = 0
count u (a ∷ rest) = (if a == u then 1 else 0) + count u rest

-- The accounts 0, 1 and 2, each once.
abbrev pub EachOnce : List ℕ → Type 0
EachOnce us = (u : ℕ) → count u us ≡ (if ltb u 3 then 1 else 0)

auth_user_order-EachOnce : (c : Client) → IsValid c → EachOnce (auth_user_order c)
unfolding auth_user_order count
auth_user_order-EachOnce c valid u = ground arith

-- The preferred account, if there is one, is the first.
abbrev pub StartsWith : ℕ → List ℕ → Type 0
StartsWith u us = (rest : List ℕ) × (us ≡ u ∷ rest)

remember_auth_user-first :
    (c : Client) (u : ℕ) → StartsWith u (auth_user_order (remember_auth_user c u))
unfolding auth_user_order remember_auth_user
remember_auth_user-first c u = (_, refl)

-- A try that brought no answer of a user who is signed in.
abbrev pub IsRejection : Result TryError (Option (List Value)) → Type 0
IsRejection (ok (some answer)) = ⊥
IsRejection _ = Unit

module _ {ℓ} {S : Type ℓ} (net : Network S) (json : Json) (c : Client) where
  -- Accounts that are tried one after another and rejected, between two states.
  abbrev pub Rejected : S → List ℕ → S → Type ℓ
  Rejected s [] s' = s ≡ s'
  Rejected s (u ∷ us) s' =
      IsRejection (try_auth_user net json c s u).1 × Rejected (try_auth_user net json c s u).0 us s'

  -- What a call that tries some accounts comes to: the answer of the first that is not rejected,
  -- with the account remembered, or the error with the client unchanged.
  abbrev pub Outcome : S → List ℕ → Called net json → Type ℓ
  Outcome s us (s', c', err e) = Rejected s us s' × (c' ≡ c)
  Outcome s us (s', c', ok answer) =
      (before : List ℕ) × (u : ℕ) × (after : List ℕ) × (s1 : S) × (us ≡ before ++ u ∷ after)
      × Rejected s before s1
      × (try_auth_user net json c s1 u ≡ (s', ok (some answer)))
      × (c' ≡ remember_auth_user c u)
      × StartsWith u (auth_user_order c')

  -- A rejected try in front.
  Outcome-rejected :
      (s : S) (u : ℕ) (us : List ℕ) (out : Called net json)
      → IsRejection (try_auth_user net json c s u).1
      → Outcome (try_auth_user net json c s u).0 us out
      → Outcome s (u ∷ us) out
  Outcome-rejected s u us (s', c', err e) first (rejected, same) = ((first, rejected), same)
  Outcome-rejected s u us (s', c', ok answer) first
        (before, v, after, s1, split, rejected, answered, kept, next) =
      (u ∷ before, v, after, s1, ap (λ t. u ∷ t) split, (first, rejected), answered, kept, next)

  tried-Outcome :
      (s : S) (u : ℕ) (us : List ℕ) (later : Called net json) (s' : S)
      (r : Result TryError (Option (List Value)))
      → try_auth_user net json c s u ≡ (s', r)
      → Outcome s' us later
      → Outcome s (u ∷ us) (tried net json c u s' r later)
  tried-Outcome s u us later s' (ok (some answer)) e h =
      ([], u, us, s, refl, refl, e, refl, remember_auth_user-first c u)
  tried-Outcome s u us later s' (ok none) e h = Outcome-rejected s u us later (rw (e) tt) (rw (e) h)
  tried-Outcome s u us later s' (err x) e h = Outcome-rejected s u us later (rw (e) tt) (rw (e) h)

  try_all-Outcome : (us : List ℕ) (s : S) → Outcome s us (try_all net json c s us)
  unfolding try_all
  try_all-Outcome [] s = (refl, refl)
  try_all-Outcome (u ∷ us) s =
      tried-Outcome s u us _ _ _ refl (try_all-Outcome us (try_auth_user net json c s u).0)

  tried-IsValid :
      (u : ℕ) (s' : S) (r : Result TryError (Option (List Value))) (later : Called net json)
      → u < 3
      → IsValid later.1
      → IsValid (tried net json c u s' r later).1
  unfolding remember_auth_user
  tried-IsValid u s' (ok (some answer)) later h k = h
  tried-IsValid u s' (ok none) later h k = k
  tried-IsValid u s' (err e) later h k = k

  try_all-IsValid :
      (us : List ℕ) (s : S) → All (λ u. u < 3) us → IsValid c → IsValid (try_all net json c s us).1
  unfolding try_all
  try_all-IsValid [] s h valid = valid
  try_all-IsValid (u ∷ us) s h valid =
      tried-IsValid u _ _ _ h.0 (try_all-IsValid us (try_auth_user net json c s u).0 h.1 valid)

  auth_user_order-All : IsValid c → All (λ u. u < 3) (auth_user_order c)
  unfolding auth_user_order
  auth_user_order-All valid = ground arith

  -- callAPI of a client that prefers one of the accounts 0, 1 and 2, or none, tries each of the
  -- three at most once, and is such a client again. It returns the answer of the first account that
  -- is signed in, and its next call begins with that account; or all three are rejected, and it
  -- fails with the client as it was.
  pub call_api-Outcome :
      (s : S)
      → IsValid c
      → EachOnce (auth_user_order c)
        × IsValid (call_api net json c s).1
        × Outcome s (auth_user_order c) (call_api net json c s)
  unfolding call_api
  call_api-Outcome s valid = (
    auth_user_order-EachOnce c valid,
    try_all-IsValid (auth_user_order c) s (auth_user_order-All valid) valid,
    try_all-Outcome (auth_user_order c) s,
  )
