-- ===== src/Fetch.antt =====
-- src/engine/abstractcontactfetchrequest.cpp: contacts from the rows of a result, and the links
-- between the details of a contact.
--
-- What a row adds to its contact is a parameter. A detail is known by its URI, and the links are the
-- URIs that it is linked to; what the code changes in its hash of details it also saves in the
-- contact.
use qtcontacts_tracker.Base.{
  ℕ, zero, suc, ◌+◌, Bool, true, false, not, ◌&&◌, ◌||◌, leb, any, if◌then◌else◌, Text, same_text,
  List, [], ◌∷◌, ◌++◌, Option, none, some, length, nat_eq, text_eq, lookup, insert, map,
}
pub mod Results
mod Added
pub mod Links
mod Tests

-- The contacts by their local id, and the ids in the order in which they were found.
pub record Fetched (C : Type 0) : Type 0 where
  pub contacts : List (ℕ × C)
  pub contact_ids : List ℕ

abbrev pub at_limit : Option ℕ → ℕ → Bool
at_limit none n = false
at_limit (some limit) n = leb limit n

module _ {R C : Type 0} (read : R → C → C) where
  abbrev pub add_contact : ℕ → R → C → Fetched C → Fetched C
  add_contact id row c s = record s { contacts = insert id (read row c) s.contacts }

module _ {R C : Type 0} (local_id : R → ℕ) (new_contact : ℕ → C) (read : R → C → C)
    (limit : Option ℕ) where
  -- The loop over the rows: `canceled` tells for each turn whether the request is canceled. There
  -- is no limit if the hint is negative.
  unfoldable pub fetch_results : (ℕ → Bool) → ℕ → List R → Fetched C → Fetched C
  unfolding lookup insert
  fetch_results canceled i [] s = s
  fetch_results canceled i (row ∷ rows) s =
      let id = local_id row in
      let next = λ (s' : Fetched C). fetch_results canceled (suc i) rows s' in
      if canceled i then s else elim (lookup id s.contacts) [
        | some c ↦ next (add_contact read id row c s)
        | none ↦
            let fresh = next (
              add_contact read id row (new_contact id)
                (record s { contact_ids = s.contact_ids ++ (id ∷ []) })) in
            if at_limit limit (length s.contacts) then s else fresh
      ]

abbrev pub contains_text : List Text → Text → Bool
contains_text names name = any (λ n. same_text n name) names

abbrev pub links_at : Text → List (Text × List Text) → List Text
links_at uri details = elim (lookup uri details) [ none ↦ [] | some links ↦ links ]

-- One turn of the inner loop of `updateDetailLinks`: the target is linked back.
unfoldable pub link_back : Text → Text → List (Text × List Text) → List (Text × List Text)
unfolding lookup insert
link_back uri target details = elim (lookup target details) [
  | none ↦ details
  | some links ↦
      if contains_text links uri then details else insert target (links ++ (uri ∷ [])) details
]

unfoldable pub link_all : Text → List Text → List (Text × List Text) → List (Text × List Text)
unfolding link_back
link_all uri [] details = details
link_all uri (target ∷ targets) details = link_all uri targets (link_back uri target details)

-- The outer loop over the details of the hash, each as it is when its turn comes.
unfoldable pub link_details : List Text → List (Text × List Text) → List (Text × List Text)
unfolding link_all
link_details [] details = details
link_details (uri ∷ uris) details = link_details uris (link_all uri (links_at uri details) details)

abbrev pub keys : List (Text × List Text) → List Text
keys [] = []
keys ((k, v) ∷ m) = k ∷ keys m

unfoldable pub update_detail_links : List (Text × List Text) → List (Text × List Text)
unfolding link_details
update_detail_links details = link_details (keys details) details
