-- ===== src/Maps/SavedPlaces/Page/Names.antt =====
-- Which lists discoverListNames of pkg/googlefindmy/maps/savedplaces/discovery.go names, where the
-- page shows the number of places of each.
use google_find_my_tools_go.Prelude.{
  ℕ, zero, suc, ◌/◌, ◌%◌, ◌≡◌, refl, ◌∙◌, arith, Bool, true, false, not, ◌&&◌, List, [], ◌∷◌, ◌++◌,
  map, ltb, ◌==◌, if◌then◌else◌, ok,
}
use google_find_my_tools_go.Bytes.{codes, is_empty, has_prefix, bytes_eq}
use google_find_my_tools_go.Text.{contains, to_lower}
use google_find_my_tools_go.Decimal.{format_decimal, digits_loop, digit}
use google_find_my_tools_go.Maps.SavedPlaces.Page.{
  Chromedp, Button, is_listed, listed_names, discover_list_names,
}

-- A button with "<count> places" below the name.
abbrev pub button_of : List ℕ × ℕ → Button
button_of (name, count) = record { name = name; detail = format_decimal count ++ codes " places" }

-- The names that are not empty, of the lists whose number of places does not end in the digit 0.
abbrev pub names_not_tens : List (List ℕ × ℕ) → List (List ℕ)
names_not_tens [] = []
names_not_tens ((name, count) ∷ entries) =
    if not (is_empty name) && not (count % 10 == 0)
    then name ∷ names_not_tens entries
    else names_not_tens entries

-- A detail in small letters.
abbrev lowered : List ℕ → List ℕ
lowered digits = map to_lower (digits ++ codes " places")

has_place : (digits : List ℕ) → contains (lowered digits) (codes "place") ≡ true
unfolding contains has_prefix bytes_eq to_lower
has_place [] = refl
has_place (d ∷ digits) = rw (has_place digits) (ground arith)

-- A digit is no space.
digit-small : (d : ℕ) → ltb d 10 ≡ true → (to_lower (digit d) == b' ') ≡ false
unfolding to_lower
digit-small d lt = ground arith

second_differs :
    (x y : ℕ) (s r : List ℕ)
    → (y == b' ') ≡ false
    → has_prefix (x ∷ y ∷ s) (b'0' ∷ b' ' ∷ r) ≡ false
unfolding has_prefix bytes_eq
second_differs x y s r h = ground arith

-- The text "0 places" does not begin at a digit with another one behind it.
behind_digit :
    (d c : ℕ) (digits : List ℕ)
    → (to_lower c == b' ') ≡ false
    → contains (lowered (d ∷ c ∷ digits)) (codes "0 places")
      ≡ contains (lowered (c ∷ digits)) (codes "0 places")
unfolding contains
behind_digit d c digits h =
    rw
      (second_differs (to_lower d) (to_lower c) (map to_lower (digits ++ codes " places"))
        (codes "places") h)
      refl

one_digit :
    (d : ℕ) → ltb d 10 ≡ true → contains (lowered (digit d ∷ [])) (codes "0 places") ≡ d == 0
unfolding contains has_prefix bytes_eq to_lower
one_digit d lt = ground arith

rest_small : (n : ℕ) → ltb (n % 10) 10 ≡ true
rest_small n = ground arith

on_both :
    (t : Bool) (xs ys : List ℕ) (r : Bool)
    → (t ≡ true → contains (lowered xs) (codes "0 places") ≡ r)
    → (t ≡ false → contains (lowered ys) (codes "0 places") ≡ r)
    → contains (lowered (if t then xs else ys)) (codes "0 places") ≡ r
on_both true xs ys r h k = h refl
on_both false xs ys r h k = k refl

-- Digits in front of others do not change whether "0 places" stands there.
digits_loop-contains :
    (fuel n c : ℕ) (out : List ℕ)
    → (to_lower c == b' ') ≡ false
    → contains (lowered (digits_loop fuel 10 n (c ∷ out))) (codes "0 places")
      ≡ contains (lowered (c ∷ out)) (codes "0 places")
unfolding digits_loop
digits_loop-contains zero n c out h = refl
digits_loop-contains (suc fuel) n c out h =
    on_both (ltb n 10) _ _ _ (λ lt. behind_digit (digit n) c out h)
      (λ ge.
        digits_loop-contains fuel (n / 10) (digit (n % 10)) (c ∷ out)
          (digit-small (n % 10) (rest_small n))
        ∙ behind_digit (digit (n % 10)) c out h)

last_digit : (n : ℕ) → ltb n 10 ≡ true → (n == 0) ≡ (n % 10 == 0)
last_digit n lt = ground arith

-- "0 places" stands in the detail exactly if the count ends in the digit 0.
format_decimal-contains :
    (n : ℕ) → contains (lowered (format_decimal n)) (codes "0 places") ≡ (n % 10 == 0)
unfolding format_decimal digits_loop
format_decimal-contains n =
    on_both (ltb n 10) _ _ _ (λ lt. one_digit n lt ∙ last_digit n lt)
      (λ ge.
        digits_loop-contains 19 (n / 10) (digit (n % 10)) [] (digit-small (n % 10) (rest_small n))
        ∙ one_digit (n % 10) (rest_small n))

-- The test of discoverListNames.
is_listed-button_of :
    (name : List ℕ) (count : ℕ)
    → is_listed (button_of (name, count)) ≡ (not (is_empty name) && not (count % 10 == 0))
unfolding is_listed
is_listed-button_of name count =
    rw (has_place (format_decimal count), format_decimal-contains count) (ground arith)

pub listed_names-not_tens :
    (entries : List (List ℕ × ℕ)) → listed_names (map button_of entries) ≡ names_not_tens entries
unfolding listed_names
listed_names-not_tens [] = refl
listed_names-not_tens ((name, count) ∷ entries) =
    rw (is_listed-button_of name count, listed_names-not_tens entries) refl

-- Over every browser, where the script reads the buttons of a page that shows a name and a number
-- of places for each list, with "<number> places" as the detail, discoverListNames returns the
-- names, in order, of exactly the lists whose name is not empty and whose number of places does not
-- end in the digit 0: a list of 10 or of 200 places is left out like an empty one.
pub discover_list_names-not_tens {ℓ} :
    {S : Type ℓ} (chromedp : Chromedp S) (s s' : S) (entries : List (List ℕ × ℕ))
    → chromedp.buttons s ≡ (s', ok (map button_of entries))
    → discover_list_names chromedp s ≡ (s', ok (names_not_tens entries))
unfolding discover_list_names
discover_list_names-not_tens chromedp s s' entries h = rw (h, listed_names-not_tens entries) refl
