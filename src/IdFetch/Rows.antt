-- ===== src/IdFetch/Rows.antt =====
-- src/engine/contactidfetchrequest.cpp: the ids that a request finds.
use qtcontacts_tracker.Base.{
  ℕ, suc, ◌+◌, Bool, true, false, not, ◌&&◌, ◌==◌, ==_iff, if◌then◌else◌, List, [], ◌∷◌, ◌++◌,
  Option, some, any, take, ◌≡◌, arith, refl, sym, zero,
}
use mathlib.Core.List.{append_assoc, append-nil}
use qtcontacts_tracker.Request.{
  Request, Error, no_error, not_supported_error, Answer, answers, run_query, set_last_error,
}
use qtcontacts_tracker.IdFetch.{
  IdFetch, native_loop, run_native, emulated_loop, run_emulated, fetch_ids,
}

-- No id stands twice.
abbrev pub Distinct : List ℕ → Type 0
Distinct [] = Unit
Distinct (x ∷ xs) = (any (◌==◌ x) xs ≡ false) × Distinct xs

-- The ids without their repetitions, and without those seen before.
abbrev pub firsts : List ℕ → List ℕ → List ℕ
firsts seen [] = []
firsts seen (id ∷ ids) =
    let old = firsts seen ids in
    let new = firsts (id ∷ seen) ids in if any (◌==◌ id) seen then old else id ∷ new

native_loop-firsts :
    (canceled : ℕ → Bool) (n : ℕ) (seen ids rows : List ℕ)
    → ((k : ℕ) → canceled k ≡ false)
    → native_loop canceled n seen ids rows ≡ ids ++ firsts seen rows
unfolding native_loop
native_loop-firsts canceled n seen ids [] never = sym (append-nil ids)
native_loop-firsts canceled n seen ids (id ∷ rows) never = ground (
  arith,
  never n,
  native_loop-firsts canceled (suc n) seen ids rows never,
  native_loop-firsts canceled (suc n) (id ∷ seen) (ids ++ id ∷ []) rows never,
  append_assoc ids (id ∷ []) (firsts (id ∷ seen) rows),
)

any-firsts :
    (x : ℕ) (seen ids : List ℕ)
    → any (◌==◌ x) (firsts seen ids) ≡ (any (◌==◌ x) ids && not (any (◌==◌ x) seen))
any-firsts x seen [] = refl
any-firsts x seen (id ∷ ids) =
    ground (arith, any-firsts x seen ids, any-firsts x (id ∷ seen) ids, ==_iff x id)

firsts-Distinct : (seen ids : List ℕ) → Distinct (firsts seen ids)
firsts-Distinct seen [] = tt
firsts-Distinct seen (id ∷ ids) = ground (
  arith,
  firsts-Distinct seen ids,
  firsts-Distinct (id ∷ seen) ids,
  any-firsts id (id ∷ seen) ids,
  ==_iff id id,
)

emulated_loop-take :
    (limit k n : ℕ) (ids contacts : List ℕ)
    → n + k ≡ limit
    → emulated_loop (some limit) n ids contacts ≡ ids ++ take k contacts
unfolding emulated_loop
emulated_loop-take limit zero n ids [] h = sym (append-nil ids)
emulated_loop-take limit (suc k) n ids [] h = sym (append-nil ids)
emulated_loop-take limit zero n ids (id ∷ contacts) h = ground (arith, h, append-nil ids)
emulated_loop-take limit (suc k) n ids (id ∷ contacts) h =
    let rest = emulated_loop-take limit k (suc n) (ids ++ id ∷ []) contacts (omega (arith, h)) in
    ground (arith, h, rest, append_assoc ids (id ∷ []) (take k contacts))

-- A request that sorts natively and is not canceled finds each id of the answer once, in the order
-- in which they come first, and no other id.
pub fetch_ids_native :
    (force_native : Bool) (limit : Option ℕ) (rows : List ℕ) (emulated : Error × List ℕ)
    (canceled : ℕ → Bool) (r : Request)
    → ((k : ℕ) → canceled k ≡ false)
    → let s : IdFetch = record { request = r; local_ids = [] } in
      let found =
        fetch_ids true force_native limit (answers rows) emulated canceled (no_error, true) s in
      (found.request ≡ r)
      × (found.local_ids ≡ firsts [] rows)
      × Distinct found.local_ids
      × ((x : ℕ) → any (◌==◌ x) found.local_ids ≡ any (◌==◌ x) rows)
unfolding fetch_ids run_native run_query
fetch_ids_native force_native limit rows emulated canceled r never =
    let loop = native_loop-firsts canceled 1 [] [] rows never in
    rw (never 0, loop)
      (refl, refl, firsts-Distinct [] rows, λ x. ground (arith, any-firsts x [] rows))

-- A request that is not canceled and cannot sort natively, unless this is forced, finds the first
-- contacts of the fetch request up to the limit; forced, it fails as not supported.
pub fetch_ids_emulated :
    (valid force_native : Bool) (limit : ℕ) (answer : Answer (List ℕ)) (contacts : List ℕ)
    (canceled : ℕ → Bool) (r : Request)
    → canceled 0 ≡ false
    → let s : IdFetch = record { request = r; local_ids = [] } in
      fetch_ids valid force_native
        (some limit)
        answer
        (no_error, contacts)
        canceled
        (not_supported_error, false)
        s
      ≡ (if force_native
          then record s { request = set_last_error r not_supported_error }
          else record s { local_ids = take limit contacts })
unfolding fetch_ids run_emulated
fetch_ids_emulated valid force_native limit answer contacts canceled r go =
    ground (arith, go, emulated_loop-take limit limit 0 [] contacts (omega arith))
