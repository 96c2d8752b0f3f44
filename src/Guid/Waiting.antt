-- ===== src/Guid/Waiting.antt =====
-- src/engine/guidalgorithm.cpp: nobody who waits for the hash is forgotten.
use qtcontacts_tracker.Base.{
  ℕ, Bool, true, false, if◌then◌else◌, Text, List, [], ◌∷◌, ◌++◌, ◌≡◌, ◌&&◌, not, is_empty, refl,
  select, arith,
}
use mathlib.Core.List.{append_assoc, append-nil}
use qtcontacts_tracker.Guid.{
  Cellular, waiting, call_when_ready, invoke_all, notify_ready, on_read_complete,
}

abbrev pub call_all : Cellular → List ℕ → Cellular
call_all a [] = a
call_all a (r ∷ rs) = call_all (call_when_ready a r) rs

call_all_waiting :
    (a : Cellular) (rs : List ℕ)
    → a.hash_ready ≡ false
    → call_all a rs ≡ record a { closures = a.closures ++ rs }
unfolding call_when_ready
call_all_waiting a [] e = rw (append-nil a.closures)
call_all_waiting a (r ∷ rs) e =
    let b : Cellular = record a { closures = a.closures ++ r ∷ [] } in
    ground (arith, e, call_all_waiting b rs e, append_assoc a.closures (r ∷ []) rs)

call_all_ready :
    (a : Cellular) (rs : List ℕ)
    → a.hash_ready ≡ true
    → call_all a rs ≡ record a { called = a.called ++ rs }
unfolding call_when_ready
call_all_ready a [] e = rw (append-nil a.called)
call_all_ready a (r ∷ rs) e =
    let b : Cellular = record a { called = a.called ++ r ∷ [] } in
    ground (arith, e, call_all_ready b rs e, append_assoc a.called (r ∷ []) rs)

-- The loop leaves out only the receivers that are gone.
invoke_all-select : (alive : ℕ → Bool) (rs : List ℕ) → invoke_all alive rs ≡ select alive rs
unfolding invoke_all
invoke_all-select alive [] = refl
invoke_all-select alive (r ∷ rs) = ground (arith, invoke_all-select alive rs)

-- Whoever asks to be called is called once, in the order of asking, as soon as the number has been
-- read, with or without success: those who asked before, if they still exist, and then those who
-- ask later. Nobody is left waiting.
pub call_all-on_read_complete :
    (hash : Text → Text) (alive : ℕ → Bool) (number msisdn hash' : Text) (no_error : Bool)
    (before later : List ℕ)
    → let a =
        call_all
          (on_read_complete hash alive (call_all (waiting hash' msisdn) before) number no_error)
          later in
      (a.called ≡ select alive before ++ later) × (a.closures ≡ [])
unfolding on_read_complete notify_ready
call_all-on_read_complete hash alive number msisdn hash' no_error before later =
    let msisdn' = if no_error && not (is_empty number) then number else msisdn in
    let b : Cellular = record {
      hash_ready = true;
      hardware_hash = hash msisdn';
      last_msisdn = msisdn';
      closures = [];
      called = select alive before;
    } in
    rw
      (
        call_all_waiting (waiting hash' msisdn) before refl,
        invoke_all-select alive before,
        call_all_ready b later refl,
      )
      (refl, refl)
