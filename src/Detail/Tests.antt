-- ===== src/Detail/Tests.antt =====
-- src/dao/contactdetail.cpp: the theorems at a concrete detail.
use qtcontacts_tracker.Base.{true, false, codes, List, [], ◌∷◌}
use qtcontacts_tracker.Detail.{Property, Chain, DetailChains}

abbrev affiliation : Property
affiliation = record { iri = codes "hasAffiliation"; is_inverse = false; is_foreign_key = false }

abbrev address : Property
address = record { iri = codes "hasIMAddress"; is_inverse = false; is_foreign_key = true }

abbrev nickname : Property
nickname = record { iri = codes "imNickname"; is_inverse = false; is_foreign_key = false }

abbrev role : Property
role = record { iri = codes "role"; is_inverse = false; is_foreign_key = false }

abbrev fields : List Chain
fields = (affiliation ∷ address ∷ nickname ∷ []) ∷ (affiliation ∷ role ∷ []) ∷ []

abbrev chains : DetailChains
chains = record {
  predicate_chains = (affiliation ∷ address ∷ []) ∷ (affiliation ∷ []) ∷ [];
  foreign_key_chains = (affiliation ∷ address ∷ []) ∷ [];
  possessed_chains = (affiliation ∷ []) ∷ [];
}
