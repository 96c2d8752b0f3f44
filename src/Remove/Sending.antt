-- ===== src/Remove/Sending.antt =====
-- src/engine/contactremoverequest.cpp: the queries of a removal.
use qtcontacts_tracker.Base.{
  ℕ, zero, suc, ◌⊎◌, ◌≤◌, ◌<◌, ◌≡◌, refl, sym, ap, Bool, true, false, ◌==◌, if◌then◌else◌, List, [],
  ◌∷◌, ◌++◌, none, length, take, drop, select, any, All, arith, take-append-drop, length-take,
  length-drop,
}
use mathlib.Core.List.{append_assoc, append-nil}
use qtcontacts_tracker.Request.{
  Request, Error, no_error, is_no_error, permissions_error, set_last_error, Answer, answers,
  run_query, turn_irreversible,
}
use qtcontacts_tracker.Resolver.{column_limit}
use qtcontacts_tracker.Resolver.Queries.{concat}
use qtcontacts_tracker.Remove.{send, run, check_ids}
use qtcontacts_tracker.Remove.Self.{is_other, check_ids_lem, start}

-- A query names at least one contact, and not too many.
abbrev pub IsSized : List ℕ → Type 0
IsSized q = (0 < length q) × (length q ≤ column_limit)

concat-append : (xss yss : List (List ℕ)) → concat (xss ++ yss) ≡ concat xss ++ concat yss
concat-append [] yss = refl
concat-append (xs ∷ xss) yss =
    rw (concat-append xss yss) (sym (append_assoc xs (concat xss) (concat yss)))

All-append :
    (xss yss : List (List ℕ)) → All IsSized xss → All IsSized yss → All IsSized (xss ++ yss)
All-append [] yss a b = b
All-append (xs ∷ xss) yss a b = (a.0, All-append xss yss a.1 b)

-- Whatever the connection answers, the queries name ids of the list in its order and each id at
-- most once per place: what they name, and then what is left, is the list. Each names between 1 and
-- 250 contacts.
pub send-concat :
    (exec : List (List ℕ) → Answer (Unit {0})) (fuel : ℕ) (r : Request) (qs : List (List ℕ))
    (ids : List ℕ)
    → length ids ≤ fuel
    → All IsSized qs
    → let s = send exec fuel r qs ids in
      (concat s.queries ++ s.remaining ≡ concat qs ++ ids) × All IsSized s.queries
unfolding send
send-concat exec zero r qs ids h a = (refl, a)
send-concat exec (suc fuel) r qs [] h a = (refl, a)
send-concat exec (suc fuel) r qs (id ∷ ids) h a =
    let next = take column_limit (id ∷ ids) in
    let rest = drop column_limit (id ∷ ids) in
    let qs' = qs ++ next ∷ [] in
    let sized : IsSized next = (omega arith, omega (arith, length-take column_limit (id ∷ ids))) in
    let joined : concat qs' ++ rest ≡ concat qs ++ id ∷ ids =
      rw (concat-append qs (next ∷ []), append-nil next, append_assoc (concat qs) next rest)
        (ap (◌++◌ (concat qs)) (take-append-drop column_limit (id ∷ ids))) in
    let all' = All-append qs (next ∷ []) a (sized, tt) in
    let answer = run_query r true (exec qs') in
    let ih =
      send-concat exec fuel answer.0 qs' rest (omega (arith, length-drop column_limit (id ∷ ids)))
        all' in
    ground (arith, ih, joined, all')

send_all :
    (exec : List (List ℕ) → Answer (Unit {0}))
    → ((qs : List (List ℕ)) → exec qs ≡ answers tt)
    → (fuel : ℕ) (r : Request) (qs : List (List ℕ)) (ids : List ℕ) → length ids ≤ fuel
    → ((send exec fuel r qs ids).remaining ≡ []) × ((send exec fuel r qs ids).request ≡ r)
unfolding send run_query
send_all exec works zero r qs [] h = (refl, refl)
send_all exec works zero r qs (id ∷ ids) h = absurd (omega arith)
send_all exec works (suc fuel) r qs [] h = (refl, refl)
send_all exec works (suc fuel) r qs (id ∷ ids) h =
    let qs' = qs ++ take column_limit (id ∷ ids) ∷ [] in
    let rest = drop column_limit (id ∷ ids) in
    let ih =
      send_all exec works fuel r qs' rest (omega (arith, length-drop column_limit (id ∷ ids))) in
    ground (arith, works qs', ih)

-- If no query fails, then a request that is not canceled, on an engine that knows its self contact
-- and has a connection, removes exactly the contacts of its list that are not the self contact, in
-- order; its error is a permissions error if the self contact was in the list, and otherwise what
-- it was.
pub run_removes :
    (self : ℕ) (exec : List (List ℕ) → Answer (Unit {0})) (r : Request) (ids : List ℕ)
    → ((qs : List (List ℕ)) → exec qs ≡ answers tt)
    → r.canceled ≡ false
    → let s = run true (self, no_error) exec r ids in
      (concat s.queries ≡ select (is_other self) ids)
      × (s.request ≡ (
          if any (◌==◌ self) ids
          then set_last_error (record r { cancelable = false }) permissions_error
          else record r { cancelable = false }))
unfolding run
run_removes self exec r ids works fresh =
    let r' = record r { cancelable = false } in
    let checked = check_ids self (length ids) (start r' ids) in
    let left = checked.contact_ids in
    let lem = check_ids_lem self 0 r' ids in
    let parts = send-concat exec (length left) checked.request [] left (omega arith) tt in
    let all = send_all exec works (length left) checked.request [] left (omega arith) in
    ground (
      arith,
      lem,
      parts,
      all,
      append-nil (concat (send exec (length left) checked.request [] left).queries),
    )

-- Nothing is sent, and no position gets an error, for a request that was canceled before or if the
-- engine does not know its self contact; a canceled request stays as it is, and otherwise the
-- request takes over the engine's error.
pub run_refused :
    (valid : Bool) (self : ℕ) (e : Error) (exec : List (List ℕ) → Answer (Unit {0})) (r : Request)
    (ids : List ℕ)
    → (r.canceled ≡ true) ⊎ (is_no_error e ≡ false)
    → run valid (self, e) exec r ids ≡ record {
      request = if r.canceled then r else record r { cancelable = false; last_error = e };
      error_map = [];
      queries = [];
      triggered = none;
    }
unfolding run turn_irreversible
run_refused valid self e exec r ids h = ground arith
