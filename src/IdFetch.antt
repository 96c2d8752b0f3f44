-- ===== src/IdFetch.antt =====
-- src/engine/contactidfetchrequest.cpp: the request for the ids of contacts.
--
-- What `buildQuery` reports, the rows of the answer and the outcome of the emulating fetch request
-- are parameters. `canceled` is what `isCanceled()` returns on its successive calls. A negative
-- limit is `none`.
use qtcontacts_tracker.Base.{
  ℕ, suc, ◌+◌, ltb, leb, Bool, true, false, not, ◌&&◌, ◌||◌, ◌==◌, if◌then◌else◌, List, [], ◌∷◌,
  ◌++◌, Option, none, some, any,
}
use qtcontacts_tracker.Request.{
  Request, Error, no_error, not_supported_error, is_no_error, is_not_supported, set_last_error,
  Answer, run_query,
}
pub mod Rows
mod Tests

-- The request and `m_localIds`.
pub record IdFetch : Type 0 where
  pub request : Request
  pub local_ids : List ℕ

-- The `while` loop of `runNative`, from its `n`-th turn on: an id is appended unless the set has it.
unfoldable pub native_loop : (ℕ → Bool) → ℕ → List ℕ → List ℕ → List ℕ → List ℕ
native_loop canceled n seen ids [] = ids
native_loop canceled n seen ids (id ∷ rows) =
    let old = native_loop canceled (suc n) seen ids rows in
    let new = native_loop canceled (suc n) (id ∷ seen) (ids ++ id ∷ []) rows in
    if canceled n then ids else if not (any (◌==◌ id) seen) then new else old

unfoldable pub run_native : Bool → Answer (List ℕ) → (ℕ → Bool) → IdFetch → IdFetch
unfolding native_loop run_query
run_native valid answer canceled s =
    let (r, result) = run_query s.request valid answer in
    elim result [
      | none ↦ record s { request = r }
      | some rows ↦ record { request = r; local_ids = native_loop canceled 1 [] s.local_ids rows }
    ]

-- The loop of `runEmulated` over the contacts: `n` is `nRows`.
unfoldable pub emulated_loop : Option ℕ → ℕ → List ℕ → List ℕ → List ℕ
emulated_loop limit n ids [] = ids
emulated_loop none n ids (id ∷ contacts) = emulated_loop none n (ids ++ id ∷ []) contacts
emulated_loop (some limit) n ids (id ∷ contacts) =
    let rest = emulated_loop (some limit) (suc n) (ids ++ id ∷ []) contacts in
    if ltb limit (suc n) then ids else rest

-- `emulated` is the error and the contacts of the fetch request.
unfoldable pub run_emulated : Bool → Option ℕ → Error × List ℕ → IdFetch → IdFetch
unfolding emulated_loop
run_emulated force_native limit emulated s =
    if force_native
    then record s { request = set_last_error s.request not_supported_error }
    else if not (is_no_error emulated.0)
    then record s { request = set_last_error s.request emulated.0 }
    else record s { local_ids = emulated_loop limit 0 s.local_ids emulated.1 }

-- `run`: `built` is what `buildQuery` says of errors and of sorting.
module _ (valid force_native : Bool) (limit : Option ℕ) (answer : Answer (List ℕ))
    (emulated : Error × List ℕ) (canceled : ℕ → Bool) where
  unfoldable pub fetch_ids : Error × Bool → IdFetch → IdFetch
  unfolding run_native run_emulated
  fetch_ids built s =
      if canceled 0
      then s
      else if built.1 && is_no_error built.0
      then run_native valid answer canceled s
      else if not built.1 && is_not_supported built.0
      then run_emulated force_native limit emulated s
      else record s { request = set_last_error s.request built.0 }
