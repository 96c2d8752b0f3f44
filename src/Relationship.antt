-- ===== src/Relationship.antt =====
-- src/engine/relationshipsaverequest.cpp, src/engine/relationshipremoverequest.cpp and
-- src/engine/relationshipfetchrequest.cpp: group membership.
--
-- The manager's URI is the engine's, and `has_member` the type name that Qt Mobility gives to
-- membership. A query is known by the ids of the member and the group that it names.
use qtcontacts_tracker.Base.{
  ℕ, suc, Bool, true, false, not, ◌||◌, ◌&&◌, ◌==◌, if◌then◌else◌, Text, text_eq, list_beq, nat_eq,
  List, [], ◌∷◌, ◌++◌, Option, none, some, is_empty, insert, same_text,
}
use qtcontacts_tracker.Request.{
  Request, Error, not_supported_error, invalid_relationship_error, bad_argument_error,
  set_last_error, turn_irreversible, Answer, run_query,
}
pub mod Verdicts
pub mod Fetch
mod Tests

pub record ContactId : Type 0 where
  pub manager_uri : Text
  pub local_id : ℕ

pub record Relationship : Type 0 where
  pub kind : Text
  pub first : ContactId
  pub second : ContactId

-- The member and the group of an INSERT or DELETE.
pub record Membership : Type 0 where
  pub member : ℕ
  pub group : ℕ

abbrev pub membership : Relationship → Membership
membership r = record { member = r.second.local_id; group = r.first.local_id }

pub record Batch : Type 0 where
  pub relationships : List Relationship
  pub error_map : List (ℕ × Error)
  pub queries : List Membership

-- `(m_errorMap.constEnd() - 1).value()`: errors are inserted by rising position.
abbrev pub last_value : List (ℕ × Error) → Option Error
last_value [] = none
last_value ((i, e) ∷ []) = some e
last_value ((i, e) ∷ x ∷ m) = last_value (x ∷ m)

abbrev pub set_last_value : Request → Option Error → Request
set_last_value r none = r
set_last_value r (some e) = set_last_error r e

module _ (has_member manager_uri : Text) where
  -- The second contact of a relationship that is saved: without a manager it is a local one.
  abbrev pub with_manager : Relationship → Relationship
  with_manager r =
      if is_empty r.second.manager_uri
      then record r { second = record r.second { manager_uri = manager_uri } }
      else r

  -- One turn of the loop in the save request's `run`: the relationship as it is left, and the error
  -- for its position.
  unfoldable pub save_verdict : Relationship → Relationship × Option Error
  save_verdict r =
      if not (same_text r.kind has_member)
      then (r, some not_supported_error)
      else if not (same_text r.first.manager_uri manager_uri)
      then (r, some invalid_relationship_error)
      else if not (is_empty r.second.manager_uri)
          && not (same_text r.second.manager_uri manager_uri)
      then (r, some not_supported_error)
      else if r.first.local_id == r.second.local_id
      then (with_manager r, some invalid_relationship_error)
      else (with_manager r, none)

  -- One turn of the loop in the remove request's `buildQuery`.
  unfoldable pub remove_verdict : Relationship → Relationship × Option Error
  remove_verdict r =
      if not (same_text r.kind has_member)
      then (r, some not_supported_error)
      else if not (same_text r.first.manager_uri manager_uri)
      then (r, some invalid_relationship_error)
      else if not (same_text r.second.manager_uri manager_uri)
      then (r, some not_supported_error)
      else if r.first.local_id == r.second.local_id
      then (r, some invalid_relationship_error)
      else (r, none)

-- The loop over the relationships, from a position on.
unfoldable pub batch_from :
    (Relationship → Relationship × Option Error) → ℕ → List (ℕ × Error) → List Relationship → Batch
batch_from verdict i m [] = record { relationships = []; error_map = m; queries = [] }
batch_from verdict i m (r ∷ rs) =
    let (r', e) = verdict r in
    elim e [
      | some e ↦
          let b = batch_from verdict (suc i) (insert i e m) rs in
          record b { relationships = r' ∷ b.relationships }
      | none ↦
          let b = batch_from verdict (suc i) m rs in
          record b { relationships = r' ∷ b.relationships; queries = membership r' ∷ b.queries }
    ]

module _ (has_member manager_uri : Text) (valid : Bool)
    (exec : List Membership → Answer (Unit {0})) where
  -- The save request's `run`: what it leaves of the request and the relationships, and the query
  -- sent. The error of the last position counts only if nothing was sent.
  unfoldable pub save : Request → List Relationship → Request × Batch
  unfolding turn_irreversible batch_from run_query
  save r rs =
      let (r', go) = turn_irreversible r in
      let nothing : Batch = record { relationships = rs; error_map = []; queries = [] } in
      let b = batch_from (save_verdict has_member manager_uri) 0 [] rs in
      if not go
      then (r', nothing)
      else if is_empty rs
      then (set_last_error r' bad_argument_error, nothing)
      else if not (is_empty b.queries)
      then ((run_query r' valid (exec b.queries)).0, b)
      else (set_last_value r' (last_value b.error_map), b)

  -- The remove request's `run`: `buildQuery` is called a second time for the query that is sent.
  unfoldable pub remove : Request → List Relationship → Request × Batch
  unfolding turn_irreversible batch_from run_query
  remove r rs =
      let (r', go) = turn_irreversible r in
      let nothing : Batch = record { relationships = rs; error_map = []; queries = [] } in
      let b = batch_from (remove_verdict has_member manager_uri) 0 [] rs in
      let b' = batch_from (remove_verdict has_member manager_uri) 0 b.error_map rs in
      let r1 = set_last_value r' (last_value b.error_map) in
      let r2 = set_last_value r1 (last_value b'.error_map) in
      if not go
      then (r', nothing)
      else if is_empty b.queries
      then (r1, b)
      else ((run_query r2 valid (exec b'.queries)).0, b')

-- What the fetch request asks for: the group and the member, each only if its contact is given.
pub record Wanted : Type 0 where
  pub group : Option ℕ
  pub member : Option ℕ

-- A contact is given if it differs from `QContactId()`, which has no manager and the id 0.
abbrev pub given : ContactId → Option ℕ
given c = if is_empty c.manager_uri && c.local_id == 0 then none else some c.local_id

-- A row of the result: the ids of the group and the member, none where a column is no number.
abbrev pub Row : Type 0
Row = Option ℕ × Option ℕ

-- `relationship(row)`: a row with two ids that differ gives a relationship of local contacts.
abbrev pub fetched : Text → Text → Row → List Relationship
fetched has_member manager_uri (some g, some c) =
    if g == c
    then []
    else record {
      kind = has_member;
      first = record { manager_uri = manager_uri; local_id = g };
      second = record { manager_uri = manager_uri; local_id = c };
    }
      ∷ []
fetched has_member manager_uri _ = []

abbrev pub fetched_all : Text → Text → List Row → List Relationship
fetched_all has_member manager_uri [] = []
fetched_all has_member manager_uri (row ∷ rows) =
    fetched has_member manager_uri row ++ fetched_all has_member manager_uri rows

abbrev pub fetch_answer : Text → Text → Request × Option (List Row) → Request × List Relationship
fetch_answer has_member manager_uri (r, none) = (r, [])
fetch_answer has_member manager_uri (r, some rows) = (r, fetched_all has_member manager_uri rows)

-- The fetch request's `run`, when nobody cancels it meanwhile. A type that is not supported sets
-- the error, and the query is run all the same.
unfoldable pub fetch :
    Text
    → Text
    → Bool
    → (Wanted → Answer (List Row))
    → Request
    → Text
    → ContactId
    → ContactId
    → Request × List Relationship
unfolding run_query
fetch has_member manager_uri valid exec r kind first second =
    let supported = is_empty kind || same_text kind has_member in
    let r' = if supported then r else set_last_error r not_supported_error in
    if r.canceled
    then (r, [])
    else fetch_answer has_member manager_uri
        (run_query r' valid (exec (record { group = given first; member = given second })))
