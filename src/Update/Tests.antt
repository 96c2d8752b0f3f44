-- ===== src/Update/Tests.antt =====
-- src/engine/contactsaverequest.cpp: an update with a custom field and two contexts.
use qtcontacts_tracker.Base.{
  Text, codes, List, [], ◌∷◌, ◌++◌, some, map, text_eq, lookup, ◌≡◌, refl,
}
use qtcontacts_tracker.Update.{
  text, Variant, text_list, Value, resource, blank, literal, init, joined_name, custom_values,
  same_leaf, insert_custom_values, lookup_affiliation,
}
use qtcontacts_tracker.Update.Names.{decimal, decimal-Numbers, stem}
use qtcontacts_tracker.Update.Reading.{read_values}
use qtcontacts_tracker.Update.Custom.{insert_custom_values-read}
use qtcontacts_tracker.Update.Affiliations.{lookup_all, lookup_all-separate}

abbrev contact : Value
contact = resource (codes "contact:7")

-- An empty element, and an allowable one.
abbrev values : Variant
values = text_list (codes "chess" ∷ [] ∷ codes "go" ∷ codes "home" ∷ [])

insert_custom_values-read_example :
    read_values contact (
      insert_custom_values decimal contact
        (codes "Hobby")
        (codes "Hobby")
        values
        (text (codes "home") ∷ [])
        init)
    ≡ read_values contact init ++ map literal (custom_values (text (codes "home") ∷ []) values)
unfolding init stem joined_name
insert_custom_values-read_example =
    insert_custom_values-read decimal-Numbers contact (codes "Hobby") (codes "Hobby") values
      (text (codes "home") ∷ []) init refl tt (refl, λ base n st le. refl)

custom_values_kept :
    custom_values (text (codes "home") ∷ []) values ≡ text (codes "chess") ∷ text (codes "go") ∷ []
unfolding custom_values same_leaf
custom_values_kept = refl

abbrev contexts : List Text
contexts = codes "Work" ∷ codes "Home" ∷ codes "Work" ∷ []

lookup_all-separate_example :
    (lookup (codes "Home") (lookup_all decimal contexts init).affiliations
        ≡ some (blank (codes "Affiliation_Work1"))
      → codes "Work" ≡ codes "Home")
    × (lookup
          (codes "Work")
          (lookup_all decimal ([] ∷ []) (lookup_all decimal contexts init)).affiliations
        ≡ some (blank (codes "Affiliation_Work1")))
unfolding init lookup lookup_affiliation stem joined_name decimal
lookup_all-separate_example =
    lookup_all-separate decimal-Numbers contexts ([] ∷ []) (codes "Work") (codes "Home")
      (blank (codes "Affiliation_Work1")) (refl, (refl, (refl, tt))) refl
