-- ===== src/Unmerge.antt =====
-- src/engine/contactunmergerequest.cpp: contacts of their own for the online accounts of a contact.
--
-- The resolvers give the values of their lookup, or their errors; the rows of a result are cut into
-- tokens already. The IRIs made of new UUIDs, by position, and the answers to the query and to the
-- update are parameters. The update is known by the new contacts' IRIs and their accounts.
use qtcontacts_tracker.Base.{
  ℕ, zero, suc, Bool, true, false, not, ◌&&◌, ◌||◌, ◌==◌, if◌then◌else◌, Text, same_text, List, [],
  ◌∷◌, ◌++◌, Option, none, some, length, text_eq, insert,
}
use qtcontacts_tracker.Request.{
  Request, init, bad_argument_error, does_not_exist_error, unspecified_error, set_last_error,
  SparqlError, report_errors, turn_irreversible, Answer, run_query,
}
pub mod Answers
pub mod Steps
pub mod Outcome
mod Tests

pub data Lookup (A : Type 0) : Type 0 where
  lookup_fails : List SparqlError → Lookup A
  looked_up : A → Lookup A

-- A row of the query: tokens of predicates and graphs, and tokens of accounts.
pub record Row : Type 0 where
  pub predicate_data : List (List Text)
  pub account_data : List (List Text)

pub record Unmerging : Type 0 where
  pub request : Request
  pub source_contact_iri : Text
  pub predicates : List (Text × Text)
  pub online_accounts : List (Text × (Text × Text))
  pub unmerged_contact_iris : List Text
  pub unmerged_contact_ids : List ℕ
  pub sent : List (List (Text × Text))

-- The parameters: the engine's manager, the contact, the accounts, and what is asked of the outside.
pub record Source : Type 0 where
  pub own_manager_uri : Text
  pub manager_uri : Text
  pub local_id : ℕ
  pub accounts : List Text
  pub valid : Bool
  pub rdf_type : Text
  pub resolve_iris : List ℕ → Lookup (List Text)
  pub select : Text → Answer (List Row)
  pub uuid_iri : ℕ → Text
  pub update : List (Text × Text) → Answer (Unit {0})
  pub resolve_ids : List Text → Lookup (List ℕ)

unfoldable pub start_unmerging : Unmerging
unfolding init
start_unmerging = record {
  request = init;
  source_contact_iri = [];
  predicates = [];
  online_accounts = [];
  unmerged_contact_iris = [];
  unmerged_contact_ids = [];
  sent = [];
}

abbrev pub set_error : Request → Unmerging → Unmerging
set_error r s = record s { request = r }

-- The rows of predicates: those that do not have two tokens are skipped, and the type as well. The
-- hash is a multi-hash, in which `insert` keeps what is there.
unfoldable pub predicate_rows : Text → List (List Text) → List (Text × Text) → List (Text × Text)
predicate_rows rdf_type [] found = found
predicate_rows rdf_type ((a ∷ b ∷ []) ∷ rows) found =
    predicate_rows rdf_type rows (if same_text b rdf_type then found else found ++ ((a, b) ∷ []))
predicate_rows rdf_type (row ∷ rows) found = predicate_rows rdf_type rows found

unfoldable pub account_rows :
    List (List Text) → List (Text × (Text × Text)) → List (Text × (Text × Text))
unfolding insert
account_rows [] found = found
account_rows ((a ∷ b ∷ c ∷ []) ∷ rows) found = account_rows rows (insert c (a, b) found)
account_rows (row ∷ rows) found = account_rows rows found

unfoldable pub read_rows : Text → List Row → Unmerging → Unmerging
unfolding predicate_rows account_rows
read_rows rdf_type [] s = s
read_rows rdf_type (row ∷ rows) s = read_rows rdf_type rows (record s {
  predicates = predicate_rows rdf_type row.predicate_data s.predicates;
  online_accounts = account_rows row.account_data s.online_accounts;
})

-- `buildQuery`: the new contact of each account, from a position on.
unfoldable pub new_contacts : (ℕ → Text) → ℕ → List Text → List (Text × Text)
new_contacts uuid_iri i [] = []
new_contacts uuid_iri i (account ∷ accounts) =
    (uuid_iri i, account) ∷ new_contacts uuid_iri (suc i) accounts

abbrev pub iris_of : List (Text × Text) → List Text
iris_of [] = []
iris_of ((iri, account) ∷ m) = iri ∷ iris_of m

-- The four steps of `run`: each gives the state and whether to go on.
module _ (source : Source) where
  unfoldable pub resolve_source_contact : Unmerging → Unmerging × Bool
  resolve_source_contact s =
      let bad = not (same_text source.manager_uri source.own_manager_uri) || source.local_id == 0 in
      if bad
      then (set_error (set_last_error s.request bad_argument_error) s, false)
      else elim (source.resolve_iris (source.local_id ∷ [])) [
        | lookup_fails es ↦ (set_error (report_errors s.request es) s, false)
        | looked_up (iri ∷ []) ↦ (record s { source_contact_iri = iri }, true)
        | looked_up iris ↦ (set_error (set_last_error s.request does_not_exist_error) s, false)
      ]

  unfoldable pub fetch_predicates : Unmerging → Unmerging × Bool
  unfolding run_query read_rows
  fetch_predicates s =
      let (r, result) = run_query s.request source.valid (source.select s.source_contact_iri) in
      elim result [
        | none ↦ (set_error r s, false)
        | some rows ↦ (read_rows source.rdf_type rows (set_error r s), true)
      ]

  unfoldable pub unmerge_contacts : Unmerging → Unmerging × Bool
  unfolding run_query new_contacts
  unmerge_contacts s =
      let made = new_contacts source.uuid_iri 0 source.accounts in
      let (r, result) = run_query s.request source.valid (source.update made) in
      let s' = record s {
        request = r;
        unmerged_contact_iris = s.unmerged_contact_iris ++ iris_of made;
        sent = s.sent ++ (made ∷ []);
      } in
      elim result [ none ↦ (s', false) | some x ↦ (s', true) ]

  unfoldable pub resolve_unmerged_contact_ids : Unmerging → Unmerging
  resolve_unmerged_contact_ids s = elim (source.resolve_ids s.unmerged_contact_iris) [
    | lookup_fails es ↦ set_error (report_errors s.request es) s
    | looked_up ids ↦
        if length ids == length s.unmerged_contact_iris
        then record s { unmerged_contact_ids = ids }
        else set_error (set_last_error s.request unspecified_error) s
  ]

  unfoldable pub run : Unmerging → Unmerging
  unfolding turn_irreversible resolve_source_contact fetch_predicates unmerge_contacts
      resolve_unmerged_contact_ids
  run s =
      let (r, go) = turn_irreversible s.request in
      let (s₁, resolved) = resolve_source_contact (set_error r s) in
      let (s₂, fetched) = fetch_predicates s₁ in
      let (s₃, unmerged) = unmerge_contacts s₂ in
      if not go
      then set_error r s
      else (if not resolved
          then s₁
          else (if not fetched
              then s₂
              else (if not unmerged then s₃ else resolve_unmerged_contact_ids s₃)))
