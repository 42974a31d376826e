-- ===== src/Maps/SavedPlaces/Page.antt =====
-- The steps on the page of pkg/googlefindmy/maps/savedplaces/discovery.go: screenshotOnFailure,
-- setBrowserCookies, openSavedLists, discoverListNames, discoverListLinks and clickSavedList, over
-- what chromedp, the clock and the disk do.
use google_find_my_tools_go.Prelude.{
  ℕ, Bool, true, false, not, ◌&&◌, List, [], ◌∷◌, ◌++◌, map, Option, none, some, if◌then◌else◌,
  Result, ok, err,
}
use google_find_my_tools_go.Bytes.{codes, is_empty}
use google_find_my_tools_go.Text.{contains, to_lower}
use google_find_my_tools_go.Decimal.{format_decimal}
use google_find_my_tools_go.GoErrors.{GoError, message, wrapped}
use google_find_my_tools_go.Actions.{Action, return, fail, ◌>>=◌, ◌>>◌, wrap_action}
use google_find_my_tools_go.Maps.SavedPlaces.Discovery.{Browser, ListLink}
pub mod Names
mod Tests

-- What a poll waits for: the button of the saved lists, a button of a list, the address of a list.
pub data Shown : Type 0 where
  saved_nav your_places list_address : Shown

-- A button of a list: the text of its name without white space around it, and of its detail, both
-- empty where the button has no such part.
pub record Button : Type 0 where
  pub name : List ℕ
  pub detail : List ℕ

-- chromedp.Run of one action: network.SetCookie for .google.com, chromedp.Navigate, a
-- chromedp.PollFunction, the two scripts that click and say whether there was a button, the buttons
-- and the links that a script reads, chromedp.Location and chromedp.CaptureScreenshot. Then
-- json.Unmarshal of a link, `none` on an error, the path of a file under os.TempDir,
-- time.Now().Unix() and os.WriteFile.
pub record Chromedp {ℓ} (S : Type ℓ) : Type ℓ where
  pub set_cookie : List ℕ → List ℕ → Action S GoError (Unit {0})
  pub navigate : List ℕ → Action S GoError (Unit {0})
  pub poll : Shown → Action S GoError (Unit {0})
  pub click_saved_nav : Action S GoError Bool
  pub click_list : List ℕ → Action S GoError Bool
  pub buttons : Action S GoError (List Button)
  pub links : Action S GoError (List (List ℕ))
  pub location : Action S GoError (List ℕ)
  pub capture_screenshot : Action S GoError (List ℕ)
  pub read_link : List ℕ → Option ListLink
  pub temp_file : List ℕ → List ℕ
  pub unix_now : S → S × ℕ
  pub write_file : List ℕ → List ℕ → Action S GoError (Unit {0})

-- The filters of the script of discoverListNames: /places?/i, which "place" with any letters behind
-- it meets, and not /0 places/i. JavaScript's /i lets no other letter stand for an ASCII letter.
unfoldable pub is_listed : Button → Bool
unfolding contains to_lower
is_listed button =
    not (is_empty button.name)
    && contains (map to_lower button.detail) (codes "place")
    && not (contains (map to_lower button.detail) (codes "0 places"))

unfoldable pub listed_names : List Button → List (List ℕ)
unfolding is_listed
listed_names [] = []
listed_names (button ∷ buttons) =
    let rest = listed_names buttons in if is_listed button then button.name ∷ rest else rest

abbrev pub cons_link : Option ListLink → List ListLink → List ListLink
cons_link none links = links
cons_link (some link) links = link ∷ links

-- A button was clicked, or the error is returned.
abbrev pub clicked_or {ℓ} : {S : Type ℓ} → GoError → Bool → Action S GoError (Unit {0})
clicked_or e clicked = if not clicked then fail e else return tt

module _ {ℓ} {S : Type ℓ} (chromedp : Chromedp S) where
  abbrev pub written_path : List ℕ → S × Result GoError (Unit {0}) → S × List ℕ
  written_path path (s, ok u) = (s, path)
  written_path path (s, err e) = (s, [])

  abbrev pub write_capture : List ℕ → List ℕ → S × ℕ → S × List ℕ
  write_capture label buf (s, now) =
      let path =
        chromedp.temp_file (
          codes "googlefindmy-"
          ++ (label ++ (codes "-" ++ (format_decimal now ++ codes ".png")))) in
      written_path path (chromedp.write_file path buf s)

  abbrev pub captured : List ℕ → S × Result GoError (List ℕ) → S × List ℕ
  captured label (s, ok buf) = write_capture label buf (chromedp.unix_now s)
  captured label (s, err e) = (s, [])

  -- The path is empty if a call fails.
  unfoldable pub screenshot_on_failure : List ℕ → S → S × List ℕ
  unfolding format_decimal
  screenshot_on_failure label s = captured label (chromedp.capture_screenshot s)

  -- The cookies of the map, in some order, and the consent.
  unfoldable pub set_browser_cookies : List (List ℕ × List ℕ) → Action S GoError (Unit {0})
  set_browser_cookies [] = chromedp.set_cookie (codes "CONSENT") (codes "YES+")
  set_browser_cookies ((name, value) ∷ cookies) =
      chromedp.set_cookie name value >> set_browser_cookies cookies

  unfoldable pub open_saved_lists : Action S GoError (Unit {0})
  open_saved_lists =
      wrap_action (wrapped "open Google Maps")
        (chromedp.navigate (codes "https://www.google.com/maps/"))
      >> wrap_action (wrapped "wait for Google Maps") (chromedp.poll saved_nav)
      >> wrap_action (wrapped "open Saved lists") chromedp.click_saved_nav
      >>= clicked_or (message "open Saved lists: button not found")
      >> wrap_action (wrapped "wait for Saved lists") (chromedp.poll your_places)

  unfoldable pub discover_list_names : Action S GoError (List (List ℕ))
  unfolding listed_names
  discover_list_names = wrap_action (wrapped "read Saved lists") chromedp.buttons >>= λ buttons.
      return (listed_names buttons)

  -- A link that is not read is left out.
  unfoldable pub read_links : List (List ℕ) → List ListLink
  read_links [] = []
  read_links (r ∷ raw) = cons_link (chromedp.read_link r) (read_links raw)

  unfoldable pub discover_list_links : Action S GoError (List ListLink)
  unfolding read_links
  discover_list_links = wrap_action (wrapped "read saved list links") chromedp.links >>= λ raw.
      return (read_links raw)

  unfoldable pub click_saved_list : List ℕ → Action S GoError (Unit {0})
  click_saved_list name =
      chromedp.click_list name
      >>= clicked_or (message "list button not found")
      >> wrap_action (wrapped "wait for list URL") (chromedp.poll list_address)

  -- The browser of Discovery, with the cookies of DiscoverListSpecs.
  abbrev pub page_browser : List (List ℕ × List ℕ) → Browser S
  page_browser cookies = record {
    set_cookies = set_browser_cookies cookies;
    open_saved_lists = open_saved_lists;
    list_names = discover_list_names;
    list_links = discover_list_links;
    click_saved_list = click_saved_list;
    location = chromedp.location;
    screenshot = screenshot_on_failure (codes "saved-lists");
  }
