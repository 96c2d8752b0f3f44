-- ===== src/Remove.antt =====
-- src/engine/contactremoverequest.cpp: the request that removes contacts.
--
-- The engine gives the id of the self contact, or an error; the connection is valid or not, and
-- answers each DELETE query, which is known by the ids that it names, after those sent before it.
use qtcontacts_tracker.Base.{
  ℕ, zero, suc, Bool, true, false, not, ◌==◌, if◌then◌else◌, List, [], ◌∷◌, ◌++◌, Option, none,
  some, length, take, drop, get_elem?, is_empty, insert, nat_eq,
}
use qtcontacts_tracker.Request.{
  Request, Error, no_error, permissions_error, unspecified_error, is_no_error, set_last_error,
  turn_irreversible, Answer, run_query,
}
use qtcontacts_tracker.Resolver.{column_limit}
pub mod Self
pub mod Sending
mod Tests

-- `QList::removeAt`.
abbrev pub remove_at : ℕ → List ℕ → List ℕ
remove_at i [] = []
remove_at zero (x ∷ xs) = xs
remove_at (suc i) (x ∷ xs) = x ∷ remove_at i xs

-- What the loop over the ids changes.
pub record Checked : Type 0 where
  pub contact_ids : List ℕ
  pub error_map : List (ℕ × Error)
  pub request : Request

abbrev pub is_at : ℕ → List ℕ → ℕ → Bool
is_at self ids i = elim (get_elem? ids i) [ none ↦ false | some id ↦ self == id ]

-- The loop over the ids, from the last one down: the self contact is not removed. The first `n`
-- ids are still to be checked.
unfoldable pub check_ids : ℕ → ℕ → Checked → Checked
check_ids self zero s = s
check_ids self (suc i) s = check_ids self i (
    if is_at self s.contact_ids i
    then record {
      contact_ids = remove_at i s.contact_ids;
      error_map = insert i permissions_error s.error_map;
      request = set_last_error s.request permissions_error;
    }
    else s)

pub record Sent : Type 0 where
  pub request : Request
  pub queries : List (List ℕ)
  pub remaining : List ℕ

-- The `while` loop: the ids are removed in queries of at most `column_limit` ids, until a query
-- fails. The fuel is the number of ids, and each turn takes at least one.
unfoldable pub send :
    (List (List ℕ) → Answer (Unit {0})) → ℕ → Request → List (List ℕ) → List ℕ → Sent
unfolding run_query
send exec zero r qs ids = record { request = r; queries = qs; remaining = ids }
send exec (suc fuel) r qs [] = record { request = r; queries = qs; remaining = [] }
send exec (suc fuel) r qs (id ∷ ids) =
    let qs' = qs ++ take column_limit (id ∷ ids) ∷ [] in
    let rest = drop column_limit (id ∷ ids) in
    let answer = run_query r true (exec qs') in
    elim answer.1 [
      | none ↦ record { request = answer.0; queries = qs'; remaining = rest }
      | some _ ↦ send exec fuel answer.0 qs' rest
    ]

-- What a run leaves: the request, the error for each position, the queries sent, and the number of
-- contacts with which the garbage collector was triggered, if it was.
pub record Removal : Type 0 where
  pub request : Request
  pub error_map : List (ℕ × Error)
  pub queries : List (List ℕ)
  pub triggered : Option ℕ

remove_checked : Bool → (List (List ℕ) → Answer (Unit {0})) → ℕ → Checked → Removal
unfolding send
remove_checked valid exec count s =
    if is_empty s.contact_ids
    then record { request = s.request; error_map = s.error_map; queries = []; triggered = none }
    else if not valid
    then record {
      request = set_last_error s.request unspecified_error;
      error_map = s.error_map;
      queries = [];
      triggered = none;
    }
    else let sent = send exec (length s.contact_ids) s.request [] s.contact_ids in
      record {
        request = sent.request;
        error_map = s.error_map;
        queries = sent.queries;
        triggered = some count;
      }

-- `run()`: `self` is what `selfContactId` returns and the error that it reports.
unfoldable pub run :
    Bool → (ℕ × Error) → (List (List ℕ) → Answer (Unit {0})) → Request → List ℕ → Removal
unfolding turn_irreversible check_ids remove_checked
run valid self exec r ids =
    let (r', go) = turn_irreversible r in
    if not go
    then record { request = r'; error_map = []; queries = []; triggered = none }
    else if not (is_no_error self.1)
    then record {
      request = set_last_error r' self.1;
      error_map = [];
      queries = [];
      triggered = none;
    }
    else remove_checked valid exec (length ids)
        (check_ids self.0 (length ids) (record { contact_ids = ids; error_map = []; request = r' }))
