-- ===== src/Update/Chain/Tests.antt =====
-- src/engine/contactsaverequest.cpp: the fields of a phone number and of an account's path.
use qtcontacts_tracker.Base.{Bool, true, false, Text, codes, List, [], ◌∷◌, none, text_eq, refl}
use qtcontacts_tracker.Update.{null, text, Variant, leaf, Value, resource, literal, init}
use qtcontacts_tracker.Update.Names.{decimal}
use qtcontacts_tracker.Update.Chain.{
  Property, Field, Detail, chain_eq, link, first_is_read_only, insert_detail_field,
}
use qtcontacts_tracker.Update.Chain.Path.{In, IsPath, visited}
use qtcontacts_tracker.Update.Chain.Stored.{chosen, insert_detail_field-stores}
use qtcontacts_tracker.Update.Chain.Repeated.{insert_detail_field-repeats}

abbrev property_of : Text → Property
property_of iri = record {
  iri = iri;
  is_inverse = false;
  is_read_only = false;
  is_foreign_key = false;
  is_case_sensitive = true;
  scheme = 0;
  is_content_scheme = false;
}

abbrev field_of : Bool → List Property → Field
field_of is_literal chain = record {
  name = codes "Value";
  property_chain = chain;
  is_without_mapping = false;
  has_literal_value = is_literal;
  permits_custom_values = false;
  allowable_values = [];
  computed_properties = [];
}

abbrev detail_of : Text → Detail
detail_of name = record {
  definition_name = name;
  detail_uri = [];
  detail_uri_scheme = 0;
  field_value = λ name. leaf null;
  sub_type_field = none;
}

abbrev phone_number : Field
phone_number =
    field_of true (property_of (codes "hasPhoneNumber") ∷ property_of (codes "phoneNumber") ∷ [])

abbrev has_im_contact : Property
has_im_contact = record (property_of (codes "hasIMContact")) { is_inverse = true }

abbrev account_path : Field
account_path = field_of false (property_of (codes "hasIMAddress") ∷ has_im_contact ∷ [])

abbrev value_of : Variant → Value
value_of (leaf x) = literal x
value_of _ = literal null

abbrev url_of : Variant → Value
url_of (leaf (text t)) = resource t
url_of _ = resource []

abbrev no_iri : Property → Variant → Text
no_iri p v = []

abbrev number : Variant
number = leaf (text (codes "5551234"))

abbrev path : Variant
path = leaf (text (codes "telepathy:/acc"))

abbrev contact : Value
contact = resource (codes "contact:7")

insert_detail_field-stores_example :
    let sts =
      (insert_detail_field decimal value_of no_iri contact
        (detail_of (codes "PhoneNumber"))
        phone_number
        number
        []
        []
        init
        []).0.statements in
    (node : Value) × IsPath sts contact (visited false phone_number.property_chain) node
    × In
        (link
          (chosen (detail_of (codes "PhoneNumber")) (property_of (codes "phoneNumber")))
          node
          (value_of number))
        sts
unfolding first_is_read_only
insert_detail_field-stores_example =
    insert_detail_field-stores decimal value_of no_iri contact (detail_of (codes "PhoneNumber"))
      phone_number number [] [] init [] (property_of (codes "phoneNumber")) refl refl refl refl refl

-- An account in two contexts, for work and for home.
insert_detail_field-repeats_example :
    let (b1, restrictions1, cache) =
      insert_detail_field decimal url_of no_iri
        (resource (codes "work"))
        (detail_of (codes "OnlineAccount"))
        account_path
        path
        []
        []
        init
        [] in
    In
      (link (chosen (detail_of (codes "OnlineAccount")) has_im_contact) (url_of path) (url_of path))
      (insert_detail_field decimal url_of no_iri
        (resource (codes "home"))
        (detail_of (codes "OnlineAccount"))
        account_path
        path
        []
        cache
        b1
        restrictions1).0.statements
insert_detail_field-repeats_example =
    insert_detail_field-repeats decimal url_of no_iri (detail_of (codes "OnlineAccount"))
      account_path path [] (property_of (codes "hasIMAddress")) (has_im_contact ∷ []) has_im_contact
      refl refl refl refl refl (refl, (refl, tt)) (resource (codes "work"))
      (resource (codes "home")) init []
