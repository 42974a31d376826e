-- ===== src/Maps/SavedPlaces/Page/Tests.antt =====
-- The theorems of the page of the saved lists at a concrete page, and runs of its functions.
use google_find_my_tools_go.Prelude.{
  ℕ, ◌≡◌, refl, false, true, List, [], ◌∷◌, ◌++◌, map, none, ok, err,
}
use google_find_my_tools_go.Bytes.{codes}
use google_find_my_tools_go.Decimal.{format_decimal, digits_loop}
use google_find_my_tools_go.GoErrors.{eof, wrapped}
use google_find_my_tools_go.Actions.{return, fail}
use google_find_my_tools_go.Maps.SavedPlaces.Discovery
use google_find_my_tools_go.Maps.SavedPlaces.Page
use google_find_my_tools_go.Maps.SavedPlaces.Page.{Chromedp, page_browser, discover_list_names}
use google_find_my_tools_go.Maps.SavedPlaces.Page.Names.{button_of, discover_list_names-not_tens}

abbrev lists : List (List ℕ × ℕ)
lists =
    (codes "Food", 7)
    ∷ (codes "Trips", 20)
    ∷ ([], 3)
    ∷ (codes "Empty", 0)
    ∷ (codes "Beach", 101)
    ∷ []

-- The page shows the lists; its state is the address.
abbrev shown : Chromedp (List ℕ)
shown = record {
  set_cookie = λ name value. return tt;
  navigate = λ url page. (url, ok tt);
  poll = λ watch. return tt;
  click_saved_nav = return true;
  click_list = λ name page. (codes "https://x/!2s" ++ (name ++ codes "!3e"), ok true);
  buttons = return (map button_of lists);
  links = return [];
  location = λ page. (page, ok page);
  capture_screenshot = return (1 ∷ []);
  read_link = λ text. none;
  temp_file = λ name. codes "/tmp/" ++ name;
  unix_now = λ page. (page, 1700000000);
  write_file = λ path buf. return tt;
}

discover_list_names-not_tens_example :
    discover_list_names shown [] ≡ ([], ok (codes "Food" ∷ codes "Beach" ∷ []))
discover_list_names-not_tens_example = discover_list_names-not_tens shown [] [] lists refl

screenshot :
    Page.screenshot_on_failure shown (codes "saved-lists") []
    ≡ ([], codes "/tmp/googlefindmy-saved-lists-1700000000.png")
unfolding Page.screenshot_on_failure format_decimal digits_loop
screenshot = refl

-- Where the button of the saved lists is missing, the whole discovery fails with its error and the
-- path of the screenshot.
abbrev signed_out : Chromedp (List ℕ)
signed_out = record {
  set_cookie = λ name value. return tt;
  navigate = λ url page. (url, ok tt);
  poll = λ watch. fail eof;
  click_saved_nav = return false;
  click_list = λ name. return false;
  buttons = return [];
  links = return [];
  location = λ page. (page, ok page);
  capture_screenshot = fail eof;
  read_link = λ text. none;
  temp_file = λ name. codes "/tmp/" ++ name;
  unix_now = λ page. (page, 1700000000);
  write_file = λ path buf. return tt;
}

waits_in_vain : Discovery.discover_list_specs (page_browser signed_out []) (λ value. none) [] ≡ (
  codes "https://www.google.com/maps/",
  err (Discovery.page (wrapped "wait for Google Maps" eof)),
)
unfolding Discovery.discover_list_specs Discovery.with_screenshot Page.set_browser_cookies
    Page.open_saved_lists Page.screenshot_on_failure
waits_in_vain = refl
