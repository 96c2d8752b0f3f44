-- ===== src/Request.antt =====
-- src/engine/abstractrequest.cpp and src/engine/abstractrequest.h: the base of all request workers.
--
-- A request is its last error and the two flags of cancellation. `cancel` and `turn_irreversible`
-- run under one lock, so each is one step, whatever the threads that call them. Logging is left
-- out. What a database answers is an argument.
use qtcontacts_tracker.Base.{Bool, true, false, if◌then◌else◌, List, [], ◌∷◌, Option, none, some}
pub mod Cancel
pub mod Report
mod Tests

-- `QContactManager::Error`, as far as the engine uses it.
pub data Error : Type 0 where
  no_error unspecified_error out_of_memory_error not_supported_error bad_argument_error : Error
  does_not_exist_error permissions_error invalid_relationship_error invalid_detail_error : Error
  invalid_contact_type_error : Error

abbrev pub is_no_error : Error → Bool
is_no_error no_error = true
is_no_error _ = false

abbrev pub is_unspecified : Error → Bool
is_unspecified unspecified_error = true
is_unspecified _ = false

abbrev pub is_not_supported : Error → Bool
is_not_supported not_supported_error = true
is_not_supported _ = false

-- `QSparqlError::number()`: two codes of Tracker, and all others.
pub data SparqlError : Type 0 where
  no_space unsupported other : SparqlError

pub record Request : Type 0 where
  pub last_error : Error
  pub canceled : Bool
  pub cancelable : Bool

-- The constructor.
unfoldable pub init : Request
init = record { last_error = no_error; canceled = false; cancelable = true }

-- `translateError`.
unfoldable pub translate_error : SparqlError → Error
translate_error no_space = out_of_memory_error
translate_error unsupported = not_supported_error
translate_error other = unspecified_error

abbrev pub set_last_error : Request → Error → Request
set_last_error r e = record r { last_error = e }

-- `cancel()`: whether the request is canceled now.
unfoldable pub cancel : Request → Request × Bool
cancel r = let r' = if r.cancelable then record r { canceled = true } else r in (r', r'.canceled)

-- `turnIrreversible()`.
unfoldable pub turn_irreversible : Request → Request × Bool
turn_irreversible r = if r.canceled then (r, false) else (record r { cancelable = false }, true)

-- The state in which `exec` reports the request: canceled, or finished with an error.
pub data Outcome : Type 0 where
  canceled_state : Outcome
  finished_state : Error → Outcome

-- `exec()` around a worker's `run()`.
unfoldable pub exec : (Request → Request) → Request → Request × Outcome
exec run r =
    let r' = run r in (r', if r'.canceled then canceled_state else finished_state r'.last_error)

-- One turn of the loop in `reportError` over a list of errors.
abbrev pub report_step : Error → Error → Error
report_step last out_of_memory_error = out_of_memory_error
report_step last e = if is_unspecified last then e else last

abbrev pub report_loop : Error → List SparqlError → Error
report_loop last [] = last
report_loop last (e ∷ es) = report_loop (report_step last (translate_error e)) es

-- `reportError(const QList<QSparqlError> &)`.
unfoldable pub report_errors : Request → List SparqlError → Request
report_errors r es = set_last_error r (report_loop unspecified_error es)

-- What the database answers to a query.
pub data Answer {ℓ} (R : Type ℓ) : Type ℓ where
  fails : SparqlError → Answer R
  answers : R → Answer R

-- `runQuery`: `valid` is `connection.isValid()`, and no result stands for the null pointer.
unfoldable pub run_query {ℓ} : {R : Type ℓ} → Request → Bool → Answer R → Request × Option R
unfolding translate_error
run_query r false a = (set_last_error r unspecified_error, none)
run_query r true (fails e) = (set_last_error r (translate_error e), none)
run_query r true (answers x) = (r, some x)
