-- ===== src/Label.antt =====
-- src/engine/displaylabelgenerator.cpp, and the part of src/engine/engine.cpp that uses it: the
-- label under which a contact is shown.
--
-- A contact is the values of its fields, the empty text where it has none. The names of the details
-- are Qt Mobility's, so they are a parameter. The hash that keeps the lists of generators is left
-- out: it holds what `createGenerators` returns.
use qtcontacts_tracker.Base.{
  zero, suc, ℕ, Bool, true, false, not, ◌&&◌, ◌||◌, if◌then◌else◌, Text, codes, same_text, List, [],
  ◌∷◌, ◌++◌, Option, none, some, any, is_empty,
}
pub mod Shown
pub mod Hint
mod Tests

-- The details and fields that labels are made of.
pub data Detail : Type 0 where
  name nickname organization global_presence online_account email_address : Detail
  phone_number url : Detail

pub data Field : Type 0 where
  first_name last_name custom_label middle_name nickname_text organization_name : Field
  presence_nickname account_uri email number web_address : Field

abbrev pub detail_of : Field → Detail
detail_of nickname_text = nickname
detail_of organization_name = organization
detail_of presence_nickname = global_presence
detail_of account_uri = online_account
detail_of email = email_address
detail_of number = phone_number
detail_of web_address = url
detail_of _ = name

-- `contact.detail(name).value(field)`.
abbrev pub Contact : Type 0
Contact = Field → Text

pub data Generator : Type 0 where
  simple : Field → Generator
  first_name_last_name last_name_first_name : Generator

abbrev pub joined : Text → Text → Text
joined result other =
    if not (is_empty other)
    then (if not (is_empty result) then result ++ codes " " else result) ++ other
    else result

-- `createDisplayLabel` and `requiredDetailName` of the generators.
unfoldable pub create_label : Generator → Contact → Text
create_label (simple f) c = c f
create_label first_name_last_name c = joined (c first_name) (c last_name)
create_label last_name_first_name c = joined (c last_name) (c first_name)

unfoldable pub required_detail : Generator → Detail
required_detail (simple f) = detail_of f
required_detail first_name_last_name = name
required_detail last_name_first_name = name

-- `ListOptions`.
pub record ListOptions : Type 0 where
  pub last_name_first : Bool
  pub prefer_nickname : Bool

unfoldable pub create_generators : ListOptions → List Generator
create_generators o =
    (if o.prefer_nickname then simple nickname_text ∷ [] else [])
    ++ (if o.last_name_first then last_name_first_name else first_name_last_name)
      ∷ simple custom_label
      ∷ (if not o.prefer_nickname then simple nickname_text ∷ [] else [])
    ++ simple middle_name
      ∷ simple organization_name
      ∷ simple presence_nickname
      ∷ simple account_uri
      ∷ simple email
      ∷ simple number
      ∷ simple web_address
      ∷ []

-- The two orders of `QContactDisplayLabel__FieldOrder`, and `QctSettings::DefaultNameOrder`.
abbrev pub order_first_name : Text
order_first_name = codes "first-last"

abbrev pub order_last_name : Text
order_last_name = codes "last-first"

abbrev pub default_name_order : Text
default_name_order = order_first_name

-- The settings.
pub record LabelSettings : Type 0 where
  pub name_order : Text
  pub prefer_nickname : Bool

-- `findDisplayNameGenerators`, which calls itself: `none` where the fuel, the number of calls, is
-- not enough.
unfoldable pub find_generators : ℕ → LabelSettings → Text → Option (List Generator)
find_generators zero s order = none
find_generators (suc fuel) s order =
    let configured = find_generators fuel s s.name_order in
    let default = find_generators fuel s default_name_order in
    if same_text order order_first_name
    then some (
        create_generators (record { last_name_first = false; prefer_nickname = s.prefer_nickname }))
    else if same_text order order_last_name
    then some
        (create_generators (record { last_name_first = true; prefer_nickname = s.prefer_nickname }))
    else if not (same_text order s.name_order)
    then configured
    else default

-- `createDisplayLabel` of the engine: the loop ends at the first label that is not empty.
unfoldable pub create_display_label : Text → List Generator → Contact → Text
unfolding create_label
create_display_label label [] c = label
create_display_label label (g ∷ gs) c =
    let rest = create_display_label (create_label g c) gs c in
    if not (is_empty (create_label g c)) then create_label g c else rest

-- `normalizedFetchHint`: the details that the generators need are added to a hint that asks for
-- the label.
module _ (definition_name : Detail → Text) where
  unfoldable pub add_required : List Text → List Generator → List Text
  unfolding required_detail
  add_required hint [] = hint
  add_required hint (g ∷ gs) =
      let required = definition_name (required_detail g) in
      if not (any (same_text required) hint)
      then add_required (hint ++ required ∷ []) gs
      else add_required hint gs

module _ (definition_name : Detail → Text) (display_label : Text) where
  unfoldable pub normalized_hint : List Text → List Generator → List Text
  unfolding add_required
  normalized_hint hint gs =
      if any (same_text display_label) hint then add_required definition_name hint gs else hint
