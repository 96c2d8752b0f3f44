-- ===== src/Subject/Tests.antt =====
-- src/dao/subject.cpp: IRIs at concrete values.
use qtcontacts_tracker.Base.{true, Text, codes, List, [], ◌∷◌, ◌≡◌, refl}
use qtcontacts_tracker.Subject.{presence, index_of, parse_iri, make_iri}
use qtcontacts_tracker.Subject.RoundTrip.{text_value, well_formed, parse_iri-make_iri}

abbrev uuid_of : Text → Text
uuid_of t = t

abbrev phone_iri : Text → List Text → Text
phone_iri t ts = t

abbrev connection : Text
connection = codes "/acc!me"

abbrev connection_iri : Text
connection_iri = codes "presence:/acc!me"

connection-well_formed : well_formed presence connection ≡ true
unfolding index_of
connection-well_formed = refl

parse_iri-make_iri_example :
    parse_iri uuid_of presence (make_iri uuid_of phone_iri presence (text_value connection ∷ []))
    ≡ (connection, true)
parse_iri-make_iri_example =
    parse_iri-make_iri uuid_of phone_iri presence connection connection-well_formed
