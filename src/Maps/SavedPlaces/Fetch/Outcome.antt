-- ===== src/Maps/SavedPlaces/Fetch/Outcome.antt =====
-- What FetchLists makes of the specs that ParseListSpecs has read.
use google_find_my_tools_go.Prelude.{
  ℕ, ◌≡◌, ◌⊎◌, inl, inr, refl, List, [], ◌∷◌, Result, ok, err, All,
}
use google_find_my_tools_go.Http.{Network}
use google_find_my_tools_go.Maps.SavedPlaces.Specs.{ListSpec, UrlPath, parse_list_specs}
use google_find_my_tools_go.Maps.SavedPlaces.Specs.Accepted.{SpecId, parse_list_specs-Accepted}
use google_find_my_tools_go.Maps.SavedPlaces.Entities.{Place}
use google_find_my_tools_go.Maps.SavedPlaces.Fetch.{
  SavedList, Client, FetchError, fetch_list_error, Json, fetched, Fetched, put_fetched,
  fetch_list_via_http, fetch_list, fetch_lists,
}

-- Each spec in turn has given the next list, with its id, or the next error: that of a request with
-- its id, under its id.
abbrev pub IsSplit : List ListSpec → List SavedList → List (List ℕ × FetchError) → Type 0
IsSplit [] lists errors = (lists ≡ []) × (errors ≡ [])
IsSplit (spec ∷ specs) lists errors =
    ((l : SavedList) × (ls : List SavedList) × (lists ≡ l ∷ ls)
      × (l.id ≡ spec.id)
      × IsSplit specs ls errors)
    ⊎ ((e : FetchError) × (es : List (List ℕ × FetchError)) × (errors
          ≡ (spec.id, fetch_list_error spec.id e) ∷ es)
        × IsSplit specs lists es)

abbrev pub IsSplitBy : List ListSpec → Fetched → Type 0
IsSplitBy specs out = IsSplit specs out.lists out.errors

put_fetched-IsSplit :
    (spec : ListSpec) (specs : List ListSpec) (r : Result FetchError (List Place × List ℕ))
    (rest : Fetched)
    → IsSplitBy specs rest
    → IsSplitBy (spec ∷ specs) (put_fetched spec (fetched spec r) rest)
put_fetched-IsSplit spec specs (ok answer) rest h = inl (_, rest.lists, refl, refl, h)
put_fetched-IsSplit spec specs (err e) rest h = inr (e, rest.errors, refl, h)

module _ {ℓ} {S : Type ℓ} (net : Network S) (json : Json) (c : Client) where
  fetch_list-accepted :
      (s : S) (spec : ListSpec)
      → SpecId spec
      → (fetch_list net json c s spec).1 ≡ fetched spec (fetch_list_via_http net json c s spec.id).1
  unfolding fetch_list
  fetch_list-accepted s spec h = rw (h) refl

  fetch_lists-IsSplit :
      (specs : List ListSpec) (s : S)
      → All SpecId specs
      → IsSplitBy specs (fetch_lists net json c s specs).1
  unfolding fetch_lists
  fetch_lists-IsSplit [] s ids = (refl, refl)
  fetch_lists-IsSplit (spec ∷ specs) s ids =
      rw (fetch_list-accepted s spec ids.0)
        (put_fetched-IsSplit spec specs _ _ (fetch_lists-IsSplit specs _ ids.1))

  -- FetchLists of the specs that ParseListSpecs returns gives a list with its id, or an error of
  -- the request for it, for each spec, both in the order of the specs: it never takes an id for
  -- invalid.
  pub fetch_lists-parse_list_specs :
      (url_path : UrlPath) (input : List ℕ) (specs : List ListSpec) (s : S)
      → parse_list_specs url_path input ≡ ok specs
      → IsSplitBy specs (fetch_lists net json c s specs).1
  fetch_lists-parse_list_specs url_path input specs s h =
      fetch_lists-IsSplit specs s (parse_list_specs-Accepted url_path input specs h).2
