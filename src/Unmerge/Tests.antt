-- ===== src/Unmerge/Tests.antt =====
-- src/engine/contactunmergerequest.cpp: an unmerge request at concrete values.
use qtcontacts_tracker.Base.{
  ℕ, true, false, Text, codes, List, [], ◌∷◌, map, length, get_elem?, ◌≡◌, ◌⊎◌, refl,
}
use qtcontacts_tracker.Request.{no_error, is_no_error, answers}
use qtcontacts_tracker.Unmerge.{looked_up, Row, Source, start_unmerging, new_contacts, run}
use qtcontacts_tracker.Unmerge.Answers.{placed}
use qtcontacts_tracker.Unmerge.Steps.{IsAnswered, made}
use qtcontacts_tracker.Unmerge.Outcome.{run_outcome}

abbrev id_of_iri : Text → ℕ
id_of_iri iri = 8

abbrev row : Row
row = record { predicate_data = (codes "a" ∷ codes "b" ∷ []) ∷ []; account_data = [] }

-- No contact has the id 5: the resolver gives an empty IRI for it, and the request does not fail.
abbrev source : Source
source = record {
  own_manager_uri = codes "tracker";
  manager_uri = codes "tracker";
  local_id = 5;
  accounts = codes "x" ∷ codes "y" ∷ [];
  valid = true;
  rdf_type = codes "type";
  resolve_iris = λ ids. looked_up ([] ∷ []);
  select = λ iri. answers (row ∷ []);
  uuid_iri = λ i. 117 ∷ i ∷ [];
  update = λ made. answers tt;
  resolve_ids = λ iris. looked_up (map id_of_iri iris);
}

source-IsAnswered : IsAnswered source (8 ∷ 8 ∷ [])
unfolding new_contacts
source-IsAnswered = record {
  own = refl;
  exists = refl;
  iri = [];
  found = refl;
  valid = refl;
  rows = row ∷ [];
  selected = refl;
  updated = refl;
  resolved = refl;
  counted = refl;
}

run_outcome_example :
    let s = run source start_unmerging in
    ((is_no_error s.request.last_error ≡ false) × ¬ ((ids : List ℕ) × IsAnswered source ids))
    ⊎ ((ids : List ℕ) × IsAnswered source ids
        × (s.request.last_error ≡ no_error)
        × (s.unmerged_contact_ids ≡ ids)
        × (length s.unmerged_contact_ids ≡ length source.accounts)
        × (s.sent ≡ made source ∷ [])
        × (get_elem? (made source) 1 ≡ placed source.uuid_iri 1 (get_elem? source.accounts 1)))
run_outcome_example = run_outcome source 1
