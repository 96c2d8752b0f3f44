-- ===== src/Sync.antt =====
-- src/engine/engine.cpp: the synchronous calls, each of which runs a request and waits for it.
--
-- What becomes of a request is an argument: no worker was made for it, the wait ended before it was
-- finished, or it is finished. The request then has an error and results. A call that gets a null
-- pointer gets `none`. `error` and `errorMap` are returned, whether or not the caller asks for them.
use qtcontacts_tracker.Base.{
  ℕ, Bool, true, false, not, ◌&&◌, if◌then◌else◌, List, [], ◌∷◌, ◌++◌, Option, none, some, is_empty,
}
use qtcontacts_tracker.Request.{
  Error, no_error, unspecified_error, bad_argument_error, does_not_exist_error, is_no_error,
}
use qtcontacts_tracker.Dispatch.{Start, Engine, start_request_impl, sync_task_queue}
pub mod Outcomes
mod Tests

-- The request as the caller sees it: its error, the errors by position, and its results.
pub record Request (A : Type 0) : Type 0 where
  pub error : Error
  pub error_map : List (ℕ × Error)
  pub results : List A

pub data Run (A : Type 0) : Type 0 where
  refused : Request A → Run A
  timed_out : Request A → Run A
  finished : Request A → Run A

-- What a call that changes something returns: whether it succeeded, the error, and the errors by
-- position.
pub record Changed : Type 0 where
  pub success : Bool
  pub error : Error
  pub error_map : List (ℕ × Error)

module _ {A : Type 0} where
  abbrev pub request_of : Run A → Request A
  request_of (refused r) = r
  request_of (timed_out r) = r
  request_of (finished r) = r

  -- The start of a request in the queue for synchronous calls. `fresh` is the request as the
  -- caller made it, `ran` what becomes of it if it has a task.
  unfoldable pub start_run : Start → Engine → Request A → Run A → Run A
  start_run c s fresh ran = elim (start_request_impl c sync_task_queue s).1 [
    | none ↦ refused fresh
    | some worker ↦ ran
  ]

  -- `runSyncRequest`: what it returns, and the error.
  unfoldable pub run_sync_request : Run A → Bool × Error
  run_sync_request (refused r) = (true, r.error)
  run_sync_request (timed_out r) = (false, unspecified_error)
  run_sync_request (finished r) = (true, r.error)

  -- `contactIds` and `contacts` with a filter: the results, and the error.
  unfoldable pub fetch : Run A → List A × Error
  unfolding run_sync_request
  fetch run = ((request_of run).results, (run_sync_request run).1)

  -- `contactImpl`: no contact stands for an empty one.
  unfoldable pub contact_impl : Run A → Option A × Error
  unfolding run_sync_request
  contact_impl run =
      let (done, error) = run_sync_request run in
      if done
      then elim (request_of run).results [
        | [] ↦ (none, does_not_exist_error)
        | x ∷ xs ↦ (some x, error)
      ]
      else (none, error)

  -- `removeContacts`, `removeRelationships`, and `saveRelationships` with a list.
  unfoldable pub change : Run A → Changed
  unfolding run_sync_request
  change run = record {
    success = is_no_error (request_of run).error;
    error = (run_sync_request run).1;
    error_map = (request_of run).error_map;
  }

-- A contact: its id and display label, and all the rest.
pub record Contact : Type 0 where
  pub id : ℕ
  pub display_label : ℕ
  pub details : ℕ

-- The loop of `saveContacts` over the saved contacts, none if there are more than contacts.
unfoldable pub update_contacts : List Contact → List Contact → Option (List Contact)
update_contacts cs [] = some cs
update_contacts [] (saved ∷ rest) = none
update_contacts (c ∷ cs) (saved ∷ rest) = elim (update_contacts cs rest) [
  | none ↦ none
  | some cs' ↦ some (record c { display_label = saved.display_label; id = saved.id } ∷ cs')
]

-- `saveContacts`: the contacts of the caller, and what is returned.
unfoldable pub save_contacts : Option (List Contact) → Run Contact → Option (List Contact) × Changed
unfolding run_sync_request update_contacts
save_contacts none run =
    (none, record { success = false; error = bad_argument_error; error_map = [] })
save_contacts (some contacts) run =
    let r = request_of run in
    let (done, error) = run_sync_request run in
    if done
    then (
      update_contacts contacts r.results,
      record { success = is_no_error r.error; error = error; error_map = r.error_map },
    )
    else (some contacts, record { success = false; error = error; error_map = r.error_map })

-- `QContactRelationship::Role`.
pub data Role : Type 0 where
  first second either : Role

module _ {A : Type 0} where
  -- `relationships`: `runs` gives what becomes of the request that names the participant in a role.
  unfoldable pub relationships : Bool → Role → (Role → Run A) → List A × Error
  unfolding fetch
  relationships default_id first runs = fetch (runs first)
  relationships default_id second runs = fetch (runs second)
  relationships default_id either runs =
      let (xs, e) = fetch (runs first) in
      let (ys, e') = fetch (runs second) in
      if default_id
      then fetch (runs either)
      else (if not (is_no_error e)
          then ([], e)
          else (if not (is_no_error e') then ([], e') else (xs ++ ys, no_error)))
