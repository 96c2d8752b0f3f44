-- ===== src/Engine/Tests.antt =====
-- src/engine/engine.cpp: compatible contacts and avatars at concrete values.
use qtcontacts_tracker.Base.{
  ℕ, Bool, true, not, is_empty, Text, codes, List, [], ◌∷◌, some, length, ◌≡◌, refl, arith, ltb,
}
use qtcontacts_tracker.Engine.Compatible.{
  Detail, Definition, prune_values, compatible_contact, drop_odd_details, check_fields, remove_all,
  remove_detail, prune_details, save_detail,
}
use qtcontacts_tracker.Engine.Avatar.{RankedAvatar}
use qtcontacts_tracker.Engine.Unique.{Distinct, keep_unique, prune_all}
use qtcontacts_tracker.Engine.Pruned.{compatible_contact-prune_all}
use qtcontacts_tracker.Engine.Ordered.{IsStrict}

abbrev name : Text
name = codes "Name"

abbrev not_empty : Text → Bool
not_empty t = not (is_empty t)

abbrev schema : List Definition
schema = record { name = name; is_unique = true; make_value = λ field. some not_empty } ∷ []

abbrev detail : ℕ → List (Text × Text) → Detail
detail key values = record { key = key; definition_name = name; values = values }

abbrev bad_values : List (Text × Text)
bad_values = (codes "a", []) ∷ (codes "b", codes "x") ∷ (codes "c", []) ∷ []

abbrev two_names : List Detail
two_names = detail 3 bad_values ∷ detail 4 [] ∷ []

two_names-Distinct : Distinct two_names
two_names-Distinct = ((refl, tt), (tt, tt))

compatible_contact-prune_all_example :
    compatible_contact schema two_names ≡ prune_all schema (keep_unique schema two_names)
compatible_contact-prune_all_example =
    compatible_contact-prune_all schema two_names two_names-Distinct

compatible_two_names :
    compatible_contact schema two_names
    ≡ detail 3 ((codes "b", codes "x") ∷ (codes "c", []) ∷ []) ∷ []
unfolding compatible_contact drop_odd_details check_fields remove_all remove_detail prune_details
    save_detail prune_values
compatible_two_names = refl

abbrev definition : Definition
definition = record { name = name; is_unique = true; make_value = λ field. some not_empty }

abbrev shorter : Text → Text → Bool
shorter a b = ltb (length a) (length b)

shorter-IsStrict : IsStrict shorter
shorter-IsStrict = record {
  irreflexive = λ x. ground arith;
  transitive = λ x y z h h'. ground (arith, h, h');
}

abbrev avatar : Text → ℕ → RankedAvatar
avatar uri availability = record {
  linked_detail_uris = uri ∷ [];
  sub_type = [];
  image_url = [];
  availability = availability;
}

abbrev account_of : Text → Text
account_of uri = uri

abbrev rank : Text → ℕ
rank account = 1
