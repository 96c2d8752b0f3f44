-- ===== src/Subject.antt =====
-- src/dao/subject.cpp: the IRIs that stand for resources, by their scheme.
--
-- QUuid and the IRIs of phone numbers are parameters: `uuid_of` gives `toString` of the UUID that a
-- text stands for, in braces, and the empty text if there is none.
use qtcontacts_tracker.Base.{
  ℕ, zero, suc, ◌+◌, ◌-◌, Bool, true, false, not, ◌&&◌, ◌||◌, ◌==◌, if◌then◌else◌, Text, codes,
  List, [], ◌∷◌, ◌++◌, Option, none, some, is_empty, length, take, drop,
}
pub mod RoundTrip
mod Tests

-- `QTrackerContactSubject::Scheme`: `None` is `no_scheme`.
pub data Scheme : Type 0 where
  no_scheme anonymous phone_number email_address telepathy presence : Scheme

-- A `QVariant`, as a text and as a list of texts.
pub record Value : Type 0 where
  pub to_string : Text
  pub to_string_list : List Text

unfoldable pub is_content_scheme : Scheme → Bool
is_content_scheme no_scheme = false
is_content_scheme anonymous = false
is_content_scheme _ = true

-- `QString::startsWith`, and `QString::indexOf` of a character.
unfoldable pub starts_with : Text → Text → Bool
starts_with text [] = true
starts_with [] (p ∷ prefix) = false
starts_with (c ∷ text) (p ∷ prefix) = (c == p) && starts_with text prefix

unfoldable pub index_of : ℕ → Text → Option ℕ
index_of c [] = none
index_of c (d ∷ text) = elim (d == c) [
  | true ↦ some 0
  | false ↦ elim (index_of c text) [ none ↦ none | some i ↦ some (suc i) ]
]

abbrev pub slash : ℕ
slash = 47

abbrev pub exclamation_mark : ℕ
exclamation_mark = 33

abbrev pub starts_with_slash : Text → Bool
starts_with_slash [] = false
starts_with_slash (c ∷ text) = c == slash

-- The value and whether the IRI was valid.
unfoldable pub parse_text_iri : Text → Text → Text × Bool
unfolding starts_with
parse_text_iri prefix iri =
    let value : Text = if starts_with iri prefix then drop (length prefix) iri else [] in
    (value, not (is_empty value))

abbrev pub mailto_prefix : Text
mailto_prefix = codes "mailto:"

abbrev pub telepathy_prefix : Text
telepathy_prefix = codes "telepathy:"

abbrev pub presence_prefix : Text
presence_prefix = codes "presence:"

abbrev pub uuid_prefix : Text
uuid_prefix = codes "urn:uuid:"

unfoldable pub make_email_address_iri : Text → Text
make_email_address_iri address = mailto_prefix ++ address

-- `makeTelepathyIri` and `makePresenceIri` of an account and an address.
unfoldable pub make_telepathy_iri : Text → Text → Text
make_telepathy_iri account address =
    if not (starts_with_slash account)
    then []
    else (if is_empty address
        then telepathy_prefix ++ account
        else telepathy_prefix ++ (account ++ (exclamation_mark ∷ address)))

unfoldable pub make_presence_iri : Text → Text → Text
make_presence_iri account address =
    if not (starts_with_slash account) || is_empty address
    then []
    else presence_prefix ++ (account ++ (exclamation_mark ∷ address))

-- The same of a connection, which is cut at the first exclamation mark.
unfoldable pub make_telepathy_connection_iri : Text → Text
unfolding index_of make_telepathy_iri
make_telepathy_connection_iri connection = elim (index_of exclamation_mark connection) [
  | some i ↦ make_telepathy_iri (take i connection) (drop (suc i) connection)
  | none ↦ make_telepathy_iri connection []
]

unfoldable pub make_presence_connection_iri : Text → Text
unfolding index_of make_presence_iri
make_presence_connection_iri connection = elim (index_of exclamation_mark connection) [
  | some i ↦ make_presence_iri (take i connection) (drop (suc i) connection)
  | none ↦ []
]

-- `qctUuidString`: without the braces.
unfoldable pub qct_uuid_string : Text → Text
qct_uuid_string uuid = take (length uuid - 2) (drop 1 uuid)

module _ (uuid_of : Text → Text) where
  unfoldable pub parse_anonymous_iri : Text → Text × Bool
  unfolding starts_with
  parse_anonymous_iri iri =
      let uuid : Text =
        if starts_with iri uuid_prefix
        then uuid_of (123 ∷ (drop (length uuid_prefix) iri ++ 125 ∷ []))
        else [] in
      (uuid, not (is_empty uuid))

  unfoldable pub make_anonymous_iri : Text → Text
  make_anonymous_iri text =
      let uuid = uuid_of text in if is_empty uuid then [] else uuid_prefix ++ qct_uuid_string uuid

  unfoldable pub parse_iri : Scheme → Text → Text × Bool
  unfolding parse_anonymous_iri parse_text_iri
  parse_iri no_scheme iri = parse_anonymous_iri iri
  parse_iri anonymous iri = parse_anonymous_iri iri
  parse_iri phone_number iri = ([], false)
  parse_iri email_address iri = parse_text_iri mailto_prefix iri
  parse_iri telepathy iri = parse_text_iri telepathy_prefix iri
  parse_iri presence iri = parse_text_iri presence_prefix iri

module _ (uuid_of : Text → Text) (phone_number_iri : Text → List Text → Text) where
  -- By the scheme and the number of values.
  unfoldable pub make_iri : Scheme → List Value → Text
  unfolding make_anonymous_iri make_email_address_iri make_telepathy_iri make_presence_iri
      make_telepathy_connection_iri make_presence_connection_iri
  make_iri no_scheme (v ∷ []) = make_anonymous_iri uuid_of v.to_string
  make_iri anonymous (v ∷ []) = make_anonymous_iri uuid_of v.to_string
  make_iri phone_number (v ∷ w ∷ []) = phone_number_iri v.to_string w.to_string_list
  make_iri email_address (v ∷ []) = make_email_address_iri v.to_string
  make_iri telepathy (v ∷ w ∷ []) = make_telepathy_iri v.to_string w.to_string
  make_iri telepathy (v ∷ []) = make_telepathy_connection_iri v.to_string
  make_iri presence (v ∷ w ∷ []) = make_presence_iri v.to_string w.to_string
  make_iri presence (v ∷ []) = make_presence_connection_iri v.to_string
  make_iri _ _ = []
