-- ===== src/Maps/Contacts/Form.antt =====
-- The contacts that parseContacts returns, whatever the answer.
use google_find_my_tools_go.Prelude.{
  ℕ, ◌+◌, ◌≤◌, ◌≡◌, refl, ◌∙◌, Bool, true, false, List, [], ◌∷◌, ◌++◌, Option, none, some,
  if◌then◌else◌, arith, All, length, leb, ltb, inl, inr, Bool-cases,
}
use google_find_my_tools_go.Bytes.{codes, is_empty}
use google_find_my_tools_go.Json.{Value, as_array, as_text, at}
use google_find_my_tools_go.Maps.Contacts.{
  Contact, maps_shared, maps_self, ParseFloat, basic_info, no_contact, short_profile, coordinates,
  location_info, extract_contact, kept_contact, contact_item, shared_contacts, own_id_of,
  own_contact, own_info, own_location, shared_items, parse_contacts,
}

abbrev pub IsShared : Contact → Type 0
IsShared c = (is_empty c.id ≡ false) × (c.type_ ≡ maps_shared)

abbrev pub IsOwn : Contact → Type 0
IsOwn c = (is_empty c.id ≡ false) × (c.type_ ≡ maps_self) × (c.name ≡ codes "You")

-- Shared contacts, and behind them at most one entry for the user.
abbrev pub IsContactList : ℕ → List Contact → Type 0
IsContactList most contacts =
    (shared : List Contact) × (own : List Contact) × (contacts ≡ shared ++ own)
    × All IsShared shared
    × All IsOwn own
    × (length shared ≤ most)
    × (length own ≤ 1)

basic_info-type : (o : Option (List Value)) (c : Contact) → (basic_info o c).type_ ≡ c.type_
basic_info-type none c = refl
basic_info-type (some info) c = ground arith

short_profile-type : (o : Option (List Value)) (c : Contact) → (short_profile o c).type_ ≡ c.type_
short_profile-type none c = refl
short_profile-type (some sp) c = ground arith

profiled-type :
    (t : Bool) (o : Option (List Value)) (c : Contact)
    → c.type_ ≡ maps_shared
    → (if t then short_profile o c else c).type_ ≡ maps_shared
profiled-type true o c h = short_profile-type o c ∙ h
profiled-type false o c h = h

if-All :
    (t : Bool) (xs ys : List Contact)
    → All IsShared xs
    → All IsShared ys
    → All IsShared (if t then xs else ys)
if-All true xs ys h k = h
if-All false xs ys h k = k

module _ (parse_float : ParseFloat) where
  coordinates-type :
      (o : Option (List Value)) (c : Contact) → (coordinates parse_float o c).type_ ≡ c.type_
  coordinates-type none c = refl
  coordinates-type (some coords) c = ground arith

  location_info-type :
      (o : Option (List Value)) (c : Contact) → (location_info parse_float o c).type_ ≡ c.type_
  location_info-type none c = refl
  location_info-type (some info) c = ground (arith, coordinates-type (as_array (at info 1)) c)

  extract_contact-type :
      (contact : List Value) → (extract_contact parse_float contact).type_ ≡ maps_shared
  unfolding extract_contact
  extract_contact-type contact =
      let named = basic_info (as_array (at contact 0)) no_contact in
      let profile = as_array (at contact 6) in
      location_info-type (as_array (at contact 1))
        (if ltb 6 (length contact) then short_profile profile named else named)
      ∙ profiled-type (ltb 6 (length contact)) profile named
          (basic_info-type (as_array (at contact 0)) no_contact)

  kept_contact-All :
      (c : Contact) (rest : List Contact)
      → c.type_ ≡ maps_shared
      → All IsShared rest
      → All IsShared (kept_contact parse_float c rest)
  kept_contact-All c rest h k = elim (Bool-cases (is_empty c.id)) [
    | inl empty ↦ rw (empty) k
    | inr full ↦ rw (full) ((full, h), k)
  ]

  contact_item-All :
      (o : Option (List Value)) (rest : List Contact)
      → All IsShared rest
      → All IsShared (contact_item parse_float o rest)
  contact_item-All none rest k = k
  contact_item-All (some contact) rest k =
      if-All (ltb (length contact) 7) rest _ k
        (kept_contact-All _ rest (extract_contact-type contact) k)

  shared_contacts-All : (items : List Value) → All IsShared (shared_contacts parse_float items)
  unfolding shared_contacts
  shared_contacts-All [] = tt
  shared_contacts-All (item ∷ items) =
      contact_item-All (as_array item) _ (shared_contacts-All items)

  contact_item-length :
      (o : Option (List Value)) (rest : List Contact)
      → length (contact_item parse_float o rest) ≤ 1 + length rest
  contact_item-length none rest = omega arith
  contact_item-length (some contact) rest = ground arith

  shared_contacts-length :
      (items : List Value) → length (shared_contacts parse_float items) ≤ length items
  unfolding shared_contacts
  shared_contacts-length [] = omega arith
  shared_contacts-length (item ∷ items) = omega (
    arith,
    contact_item-length (as_array item) (shared_contacts parse_float items),
    shared_contacts-length items,
  )

  -- At most one entry for the user.
  abbrev IsOwnList : List Contact → Type 0
  IsOwnList own = All IsOwn own × (length own ≤ 1)

  if-IsOwnList : (t : Bool) (own : List Contact) → IsOwnList own → IsOwnList (if t then own else [])
  if-IsOwnList true own h = h
  if-IsOwnList false own h = (tt, omega arith)

  own_contact-IsOwnList :
      (id : List ℕ) (info : List Value) (o : Option (List Value))
      → is_empty id ≡ false
      → IsOwnList (own_contact parse_float id info o)
  own_contact-IsOwnList id info none h = (tt, omega arith)
  own_contact-IsOwnList id info (some coords) h =
      if-IsOwnList (leb 3 (length coords)) _ (((h, refl, refl), tt), omega arith)

  own_info-IsOwnList :
      (id : List ℕ) (o : Option (List Value))
      → is_empty id ≡ false
      → IsOwnList (own_info parse_float id o)
  own_info-IsOwnList id none h = (tt, omega arith)
  own_info-IsOwnList id (some info) h =
      if-IsOwnList (leb 4 (length info)) _ (own_contact-IsOwnList id info (as_array (at info 1)) h)

  own_location-IsOwnList :
      (id : List ℕ) (o : Option (List Value))
      → is_empty id ≡ false
      → IsOwnList (own_location parse_float id o)
  own_location-IsOwnList id none h = (tt, omega arith)
  own_location-IsOwnList id (some own) h =
      if-IsOwnList (leb 2 (length own)) _ (own_info-IsOwnList id (as_array (at own 1)) h)

  own_id_of-filled : (o : Option (List ℕ)) → is_empty (own_id_of parse_float o) ≡ false
  own_id_of-filled none = refl
  own_id_of-filled (some []) = refl
  own_id_of-filled (some (c ∷ id)) = refl

  if_filled :
      (t : Bool) (id : List ℕ)
      → is_empty id ≡ false
      → is_empty (if t then id else codes "self") ≡ false
  if_filled true id h = h
  if_filled false id h = refl

  -- Every contact that parseContacts returns has an id. They are shared contacts, no more than
  -- there are entries in the first element of the answer, and behind them at most one entry for the
  -- user, which is called You.
  pub parse_contacts-IsContactList :
      (answer : List Value)
      → IsContactList (length (shared_items answer)) (parse_contacts parse_float answer)
  unfolding parse_contacts
  parse_contacts-IsContactList answer =
      let (own_form, own_length) = if-IsOwnList (ltb 9 (length answer)) _ (
        own_location-IsOwnList _ (as_array (at answer 9))
          (if_filled (ltb 7 (length answer)) _ (own_id_of-filled (as_text (at answer 7))))) in
      (
        _,
        _,
        refl,
        shared_contacts-All (shared_items answer),
        own_form,
        shared_contacts-length (shared_items answer),
        own_length,
      )
