-- ===== src/Relationship/Fetch.antt =====
-- src/engine/relationshipfetchrequest.cpp: what a fetch reports.
use qtcontacts_tracker.Base.{
  ◌≡◌, Bool, true, false, ◌||◌, Text, nat_eq, List, [], ◌∷◌, ◌++◌, Option, none, some, All,
  is_empty, same_text, if◌then◌else◌, arith,
}
use qtcontacts_tracker.Request.{
  Request, not_supported_error, set_last_error, Answer, answers, run_query,
}
use qtcontacts_tracker.Relationship.{
  Relationship, ContactId, Wanted, Row, given, fetched, fetched_all, fetch, fetch_answer,
}
use qtcontacts_tracker.Relationship.Verdicts.{IsLocal}

module _ (has_member manager_uri : Text) where
  fetched-IsLocal :
      (row : Row) → All (IsLocal has_member manager_uri) (fetched has_member manager_uri row)
  fetched-IsLocal (some g, some c) = ground arith
  fetched-IsLocal (some g, none) = tt
  fetched-IsLocal (none, c) = tt

  All-append :
      (xs ys : List Relationship)
      → All (IsLocal has_member manager_uri) xs
      → All (IsLocal has_member manager_uri) ys
      → All (IsLocal has_member manager_uri) (xs ++ ys)
  All-append [] ys a b = b
  All-append (x ∷ xs) ys a b = (a.0, All-append xs ys a.1 b)

  fetched_all-IsLocal :
      (rows : List Row)
      → All (IsLocal has_member manager_uri) (fetched_all has_member manager_uri rows)
  fetched_all-IsLocal [] = tt
  fetched_all-IsLocal (row ∷ rows) =
      All-append (fetched has_member manager_uri row) (fetched_all has_member manager_uri rows)
        (fetched-IsLocal row) (fetched_all-IsLocal rows)

  fetch_answer-IsLocal :
      (a : Request × Option (List Row))
      → All (IsLocal has_member manager_uri) (fetch_answer has_member manager_uri a).1
  fetch_answer-IsLocal (r, none) = tt
  fetch_answer-IsLocal (r, some rows) = fetched_all-IsLocal rows

  guarded-IsLocal :
      (b : Bool) (r : Request) (a : Request × Option (List Row))
      → All
          (IsLocal has_member manager_uri)
          (if b then (r, []) else fetch_answer has_member manager_uri a).1
  guarded-IsLocal true r a = tt
  guarded-IsLocal false r a = fetch_answer-IsLocal a

  -- Whatever the database answers, a fetch reports only memberships of two different local
  -- contacts.
  pub fetch-IsLocal :
      (valid : Bool) (exec : Wanted → Answer (List Row)) (r : Request) (kind : Text)
      (first second : ContactId)
      → All
          (IsLocal has_member manager_uri)
          (fetch has_member manager_uri valid exec r kind first second).1
  unfolding fetch
  fetch-IsLocal valid exec r kind first second = guarded-IsLocal r.canceled r (
      run_query
        (if is_empty kind || same_text kind has_member
          then r
          else set_last_error r not_supported_error)
        valid (exec (record { group = given first; member = given second })))

  -- A fetch of a type other than membership sets an error, and still reports every membership that
  -- the database has for the contacts.
  pub fetch_unsupported :
      (exec : Wanted → Answer (List Row)) (r : Request) (kind : Text) (first second : ContactId)
      (rows : List Row)
      → r.canceled ≡ false
      → (is_empty kind || same_text kind has_member) ≡ false
      → exec (record { group = given first; member = given second }) ≡ answers rows
      → fetch has_member manager_uri true exec r kind first second
        ≡ (set_last_error r not_supported_error, fetched_all has_member manager_uri rows)
  unfolding fetch
  fetch_unsupported exec r kind first second rows go other found = ground arith
