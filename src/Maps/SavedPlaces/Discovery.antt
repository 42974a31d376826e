-- ===== src/Maps/SavedPlaces/Discovery.antt =====
-- DiscoverListSpecs, specsFromListLinks and withScreenshot of
-- pkg/googlefindmy/maps/savedplaces/discovery.go, over a browser: what the other functions of that
-- file do with the page. Page makes one of chromedp.
use google_find_my_tools_go.Prelude.{
  ℕ, Bool, true, false, not, List, [], ◌∷◌, Option, none, some, if◌then◌else◌, Result, ok, err,
}
use google_find_my_tools_go.GoErrors.{GoError}
use google_find_my_tools_go.Actions.{Action, return, fail, ◌>>=◌, ◌>>◌, wrap_action, pure_result}
use google_find_my_tools_go.Text.{trim_space}
use google_find_my_tools_go.Maps.SavedPlaces.Specs.{ListSpec, UrlPath, extract_list_id, is_nil}
use google_find_my_tools_go.Maps.SavedPlaces.Entities.{has_key}
pub mod Found

pub record ListLink : Type 0 where
  pub href : List ℕ
  pub name : List ℕ

-- setBrowserCookies, openSavedLists, discoverListNames, discoverListLinks, clickSavedList and
-- chromedp.Location, and the screenshot of screenshotOnFailure with its path, empty if there is
-- none.
pub record Browser {ℓ} (S : Type ℓ) : Type ℓ where
  pub set_cookies : Action S GoError (Unit {0})
  pub open_saved_lists : Action S GoError (Unit {0})
  pub list_names : Action S GoError (List (List ℕ))
  pub list_links : Action S GoError (List ListLink)
  pub click_saved_list : List ℕ → Action S GoError (Unit {0})
  pub location : Action S GoError (List ℕ)
  pub screenshot : S → S × List ℕ

-- The wrapped errors of DiscoverListSpecs, "no saved lists found in Google Maps", and an error with
-- the path of a screenshot.
pub data DiscoveryError : Type 0 where
  set_maps_cookies read_saved_list_url : GoError → DiscoveryError
  page : GoError → DiscoveryError
  open_saved_list : List ℕ → GoError → DiscoveryError
  extract_id_for : List ℕ → DiscoveryError
  no_saved_lists : DiscoveryError
  with_path : List ℕ → DiscoveryError → DiscoveryError

-- A round of specsFromListLinks, with the specs that follow if the link is left out, and if it is
-- kept.
abbrev pub link_round :
    List (List ℕ)
    → ListLink
    → Option (List ℕ)
    → List ListSpec
    → (List ℕ → List ListSpec)
    → List ListSpec
link_round seen link none next kept = next
link_round seen link (some id) next kept =
    if has_key id seen then next else record { id = id; name = trim_space link.name } ∷ kept id

unfoldable pub links_loop : UrlPath → List (List ℕ) → List ListLink → List ListSpec
links_loop url_path seen [] = []
links_loop url_path seen (link ∷ links) =
    link_round seen link (extract_list_id url_path link.href) (links_loop url_path seen links)
      (λ id. links_loop url_path (id ∷ seen) links)

unfoldable pub specs_from_list_links : UrlPath → List ListLink → List ListSpec
unfolding links_loop
specs_from_list_links url_path links = links_loop url_path [] links

abbrev pub kept_or_not : List (List ℕ) → List ℕ → List ℕ → List ListSpec → List ListSpec
kept_or_not seen name id rest =
    if has_key id seen then rest else record { id = id; name = name } ∷ rest

abbrev pub with_id : List (List ℕ) → List ℕ → List (List ℕ)
with_id seen id = if has_key id seen then seen else id ∷ seen

module _ {ℓ} {S : Type ℓ} (browser : Browser S) (url_path : UrlPath) where
  -- withScreenshot around the error of a call.
  abbrev pub shot {κ} : {A : Type κ} → DiscoveryError → S × List ℕ → S × Result DiscoveryError A
  shot e (s, []) = (s, err e)
  shot e (s, b ∷ path) = (s, err (with_path (b ∷ path) e))

  abbrev pub shot_of {κ} : {A : Type κ} → S × Result DiscoveryError A → S × Result DiscoveryError A
  shot_of (s, ok a) = (s, ok a)
  shot_of (s, err e) = shot e (browser.screenshot s)

  unfoldable pub with_screenshot {κ} :
      {A : Type κ} → Action S DiscoveryError A → Action S DiscoveryError A
  with_screenshot m s = shot_of (m s)

  abbrev pub found_or_error : List ListSpec → Action S DiscoveryError (List ListSpec)
  found_or_error [] = with_screenshot (fail no_saved_lists)
  found_or_error (spec ∷ specs) = return (spec ∷ specs)

  -- The links of the page, where it shows no names.
  unfoldable pub specs_of_links : Action S DiscoveryError (List ListSpec)
  unfolding with_screenshot specs_from_list_links
  specs_of_links = with_screenshot (wrap_action page browser.list_links) >>= λ links.
      found_or_error (specs_from_list_links url_path links)

  abbrev pub id_or_extract_error : List ℕ → Option (List ℕ) → Action S DiscoveryError (List ℕ)
  id_or_extract_error name none = fail (extract_id_for name)
  id_or_extract_error name (some id) = return id

  -- The id of the list with a name, and the page of the lists again.
  unfoldable pub visit_list : List ℕ → Action S DiscoveryError (List ℕ)
  unfolding with_screenshot
  visit_list name =
      with_screenshot (wrap_action (open_saved_list name) (browser.click_saved_list name))
      >> wrap_action read_saved_list_url browser.location
      >>= λ url. id_or_extract_error name (extract_list_id url_path url)

  -- The loop over the names, with its map `seen`: the specs that it appends.
  unfoldable pub names_loop :
      List (List ℕ) → List (List ℕ) → Action S DiscoveryError (List ListSpec)
  unfolding visit_list with_screenshot
  names_loop seen [] = return []
  names_loop seen (name ∷ names) = visit_list name >>= λ id.
      with_screenshot (wrap_action page browser.open_saved_lists)
      >> names_loop (with_id seen id) names
      >>= λ rest. return (kept_or_not seen name id rest)

  unfoldable pub specs_of_names : List (List ℕ) → Action S DiscoveryError (List ListSpec)
  unfolding specs_of_links names_loop
  specs_of_names [] = specs_of_links
  specs_of_names (name ∷ names) = names_loop [] (name ∷ names)

  unfoldable pub discover_list_specs : Action S DiscoveryError (List ListSpec)
  unfolding specs_of_names with_screenshot
  discover_list_specs =
      wrap_action set_maps_cookies browser.set_cookies
      >> with_screenshot (wrap_action page browser.open_saved_lists)
      >> with_screenshot (wrap_action page browser.list_names)
      >>= specs_of_names
