-- ===== src/Maps/SavedPlaces/Discovery/Found.antt =====
-- The specs that DiscoverListSpecs finds, whatever the page shows.
use google_find_my_tools_go.Prelude.{
  ℕ, ◌≡◌, refl, inl, inr, Bool-cases, true, false, List, [], ◌∷◌, Option, none, some, ok, All,
  arith,
}
use google_find_my_tools_go.Bytes.{bytes_eq_iff}
use google_find_my_tools_go.Text.{trim_space}
use google_find_my_tools_go.Actions.{return, wrap_action, ◌>>◌}
use google_find_my_tools_go.Actions.Always.{OkIs, Always, bind-Always, next-Always, Always-ok}
use google_find_my_tools_go.Maps.SavedPlaces.Specs.{ListSpec, UrlPath, extract_list_id, is_nil}
use google_find_my_tools_go.Maps.SavedPlaces.Specs.Index.{member, Distinct}
use google_find_my_tools_go.Maps.SavedPlaces.Specs.Accepted.{
  IsListId, HoldsId, extract_list_id-HoldsId, SpecId,
}
use google_find_my_tools_go.Maps.SavedPlaces.Entities.{has_key}
use google_find_my_tools_go.Maps.SavedPlaces.Discovery.{
  ListLink, Browser, page, DiscoveryError, link_round, links_loop, specs_from_list_links,
  with_screenshot, specs_of_links, visit_list, names_loop, specs_of_names, discover_list_specs,
  found_or_error, id_or_extract_error, kept_or_not, with_id, shot,
}

-- Specs with different list ids, none of which has been seen.
record New (seen : List (List ℕ)) (specs : List ListSpec) : Type 0 where
  distinct : Distinct specs
  ids : All SpecId specs
  unseen : (id : List ℕ) → has_key id seen ≡ true → member id specs ≡ false

New-nil : (seen : List (List ℕ)) → New seen []
unfolding Distinct member
New-nil seen = record { distinct = tt; ids = tt; unseen = λ id h. refl }

New-cons :
    (seen : List (List ℕ)) (id name : List ℕ) (specs : List ListSpec)
    → has_key id seen ≡ false
    → IsListId id
    → New (id ∷ seen) specs
    → New seen (record { id = id; name = name } ∷ specs)
unfolding Distinct member has_key
New-cons seen id name specs new valid h = record {
  distinct = (h.unseen id (ground (arith, bytes_eq_iff id id)), h.distinct);
  ids = (valid, h.ids);
  unseen = λ other old. ground (arith, bytes_eq_iff other id, h.unseen other);
}

New-link :
    (seen : List (List ℕ)) (link : ListLink) (o : Option (List ℕ)) (next : List ListSpec)
    (kept : List ℕ → List ListSpec)
    → HoldsId o
    → New seen next
    → ((id : List ℕ) → New (id ∷ seen) (kept id))
    → New seen (link_round seen link o next kept)
New-link seen link none next kept o h k = h
New-link seen link (some id) next kept o h k = elim (Bool-cases (has_key id seen)) [
  | inl old ↦ rw (old) h
  | inr new ↦ rw (new) (New-cons seen id (trim_space link.name) (kept id) new o (k id))
]

links_loop-New :
    (url_path : UrlPath) (links : List ListLink) (seen : List (List ℕ))
    → New seen (links_loop url_path seen links)
unfolding links_loop
links_loop-New url_path [] seen = New-nil seen
links_loop-New url_path (link ∷ links) seen =
    New-link seen link (extract_list_id url_path link.href) _ _ (extract_list_id-HoldsId url_path _)
      (links_loop-New url_path links seen) (λ id. links_loop-New url_path links (id ∷ seen))

New-kept :
    (seen : List (List ℕ)) (name id : List ℕ) (rest : List ListSpec)
    → IsListId id
    → New (with_id seen id) rest
    → New seen (kept_or_not seen name id rest)
New-kept seen name id rest valid h = elim (Bool-cases (has_key id seen)) [
  | inl old ↦ rw (old) (rw (old) at h)
  | inr new ↦ rw (new) (New-cons seen id name rest new valid (rw (new) at h))
]

-- At least one spec, with different list ids.
abbrev pub Found : List ListSpec → Type 0
Found specs = (is_nil specs ≡ false) × Distinct specs × All SpecId specs

module _ {ℓ} {S : Type ℓ} (browser : Browser S) (url_path : UrlPath) where
  shot-OkIs {κ} :
      {A : Type 0} (P : A → Type κ) (e : DiscoveryError) (r : S × List ℕ)
      → OkIs P (shot browser url_path {A = A} e r).1
  shot-OkIs P e (s, []) = tt
  shot-OkIs P e (s, b ∷ path) = tt

  found_or_error-Always :
      (specs : List ListSpec) → New [] specs → Always Found (found_or_error browser url_path specs)
  unfolding with_screenshot
  found_or_error-Always [] h s = shot-OkIs Found _ (browser.screenshot s)
  found_or_error-Always (spec ∷ specs) h s = (refl, h.distinct, h.ids)

  specs_of_links-Always : Always Found (specs_of_links browser url_path)
  unfolding specs_of_links specs_from_list_links
  specs_of_links-Always =
      next-Always Found _ _ (λ links. found_or_error-Always _ (links_loop-New url_path links []))

  id_or_extract_error-Always :
      (name : List ℕ) (o : Option (List ℕ))
      → HoldsId o
      → Always IsListId (id_or_extract_error browser url_path name o)
  id_or_extract_error-Always name none h s = tt
  id_or_extract_error-Always name (some id) h s = h

  visit_list-Always : (name : List ℕ) → Always IsListId (visit_list browser url_path name)
  unfolding visit_list
  visit_list-Always name =
      next-Always IsListId _ _
        (λ url. id_or_extract_error-Always name _ (extract_list_id-HoldsId url_path url))

  -- A round of the loop, from what the rounds behind it return.
  names_round-Always :
      (Q : List ListSpec → Type 0) (seen : List (List ℕ)) (name : List ℕ) (names : List (List ℕ))
      → ((seen' : List (List ℕ)) → Always (New seen') (names_loop browser url_path seen' names))
      → ((id : List ℕ) (rest : List ListSpec)
          → IsListId id
          → New (with_id seen id) rest
          → Q (kept_or_not seen name id rest))
      → Always Q (names_loop browser url_path seen (name ∷ names))
  unfolding names_loop
  names_round-Always Q seen name names later kept =
      let open_lists =
        with_screenshot browser url_path (wrap_action page browser.open_saved_lists) in
      bind-Always IsListId Q _ _ (visit_list-Always name) (λ id valid.
        bind-Always (New (with_id seen id)) Q
          (open_lists >> names_loop browser url_path (with_id seen id) names)
          (λ rest. return (kept_or_not seen name id rest))
          (next-Always (New (with_id seen id)) open_lists
            (λ u. names_loop browser url_path (with_id seen id) names)
            (λ u. later (with_id seen id)))
          (λ rest new s. kept id rest valid new))

  names_loop-New :
      (names seen : List (List ℕ)) → Always (New seen) (names_loop browser url_path seen names)
  unfolding names_loop
  names_loop-New [] seen = λ s. New-nil seen
  names_loop-New (name ∷ names) seen =
      names_round-Always (New seen) seen name names (names_loop-New names) (New-kept seen name)

  specs_of_names-Always :
      (names : List (List ℕ)) → Always Found (specs_of_names browser url_path names)
  unfolding specs_of_names has_key
  specs_of_names-Always [] = specs_of_links-Always
  specs_of_names-Always (name ∷ names) =
      names_round-Always Found [] name names (names_loop-New names) λ id rest valid new.
        let all = New-kept [] name id rest valid new in (refl, all.distinct, all.ids)

  discover_list_specs-Always : Always Found (discover_list_specs browser url_path)
  unfolding discover_list_specs
  discover_list_specs-Always = next-Always Found _ _ (λ names. specs_of_names-Always names)

  -- Whatever the page shows, and whether the lists are found by their names or by their links: the
  -- specs that DiscoverListSpecs returns without error are one or more, no two have the same id,
  -- and each has an id that FetchList accepts.
  pub discover_list_specs-Found :
      (s s' : S) (specs : List ListSpec)
      → discover_list_specs browser url_path s ≡ (s', ok specs)
      → Found specs
  discover_list_specs-Found s s' specs =
      Always-ok Found (discover_list_specs browser url_path) s s' specs discover_list_specs-Always
