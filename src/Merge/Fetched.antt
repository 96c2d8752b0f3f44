-- ===== src/Merge/Fetched.antt =====
-- src/engine/contactcopyandremoverequest.cpp: the predicates fetched for contacts.
use qtcontacts_tracker.Base.{Bool, true, Text, List, [], ◌∷◌, some, same_text_iff, ◌≡◌, arith}
use qtcontacts_tracker.Merge.{
  Predicates, Details, graphed_loop, ungraphed_loop, fetch_contact_details,
}

abbrev pub nothing : Predicates
nothing = record { single = []; single_with_graph = []; multi = []; multi_with_graph = [] }

abbrev pub graphed_only : Text → List Text → Details
graphed_only contact property = record {
  contact = contact;
  graphed = property ∷ [];
  ungraphed = [];
}

abbrev pub ungraphed_only : Text → List Text → Details
ungraphed_only contact property = record {
  contact = contact;
  graphed = [];
  ungraphed = property ∷ [];
}

-- The map of noted predicates is shared by the contacts: where a first contact has a predicate of
-- one value with a graph, and a second one has it without, it is not noted for the second; where
-- the second comes first, both are noted.
pub fetch_contact_details_shared :
    (reads_as_one : Text → Bool) (a b p cardinality : Text)
    → reads_as_one cardinality ≡ true
    → let with_graph = graphed_only a (p ∷ cardinality ∷ []) in
      let without = ungraphed_only b (p ∷ cardinality ∷ []) in
      (fetch_contact_details reads_as_one nothing [] (with_graph ∷ without ∷ [])
        ≡ some (record nothing { single_with_graph = (a, p) ∷ [] }))
      × (fetch_contact_details reads_as_one nothing [] (without ∷ with_graph ∷ [])
          ≡ some (record nothing { single = (b, p) ∷ []; single_with_graph = (a, p) ∷ [] }))
unfolding fetch_contact_details graphed_loop ungraphed_loop
fetch_contact_details_shared reads_as_one a b p cardinality one =
    ground (arith, one, same_text_iff p p)
