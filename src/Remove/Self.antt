-- ===== src/Remove/Self.antt =====
-- src/engine/contactremoverequest.cpp: the self contact is kept.
use qtcontacts_tracker.Base.{
  ℕ, zero, suc, ◌+◌, ◌≤◌, ◌<◌, ◌≡◌, refl, ap, Bool, true, not, ◌==◌, ◌&&◌, ◌||◌, ltb, if◌then◌else◌,
  List, [], ◌∷◌, ◌++◌, none, some, length, take, drop, get_elem?, select, any, lookup, insert,
  nat_eq, lookup-insert, arith, Bool-cases, inl, inr,
}
use mathlib.Core.List.{append-nil}
use qtcontacts_tracker.Request.{permissions_error, Request, set_last_error}
use qtcontacts_tracker.Remove.{Checked, check_ids, is_at, remove_at}

abbrev pub is_other : ℕ → ℕ → Bool
is_other self id = not (self == id)

take-remove_at : (i : ℕ) (xs : List ℕ) → take i (remove_at i xs) ≡ take i xs
take-remove_at zero xs = refl
take-remove_at (suc i) [] = refl
take-remove_at (suc i) (x ∷ xs) = ap (◌∷◌ x) (take-remove_at i xs)

drop-remove_at : (i : ℕ) (xs : List ℕ) → drop i (remove_at i xs) ≡ drop (suc i) xs
drop-remove_at zero [] = refl
drop-remove_at zero (x ∷ xs) = refl
drop-remove_at (suc i) [] = refl
drop-remove_at (suc i) (x ∷ xs) = drop-remove_at i xs

get_elem?-remove_at :
    (i j : ℕ) (xs : List ℕ) → j < i → get_elem? (remove_at i xs) j ≡ get_elem? xs j
get_elem?-remove_at zero j xs h = absurd (omega arith)
get_elem?-remove_at (suc i) zero [] h = refl
get_elem?-remove_at (suc i) zero (x ∷ xs) h = refl
get_elem?-remove_at (suc i) (suc j) [] h = refl
get_elem?-remove_at (suc i) (suc j) (x ∷ xs) h = get_elem?-remove_at i j xs (omega arith)

length-remove_at : (i : ℕ) (xs : List ℕ) → i < length xs → length (remove_at i xs) + 1 ≡ length xs
length-remove_at zero [] h = absurd (omega arith)
length-remove_at zero (x ∷ xs) h = omega arith
length-remove_at (suc i) [] h = absurd (omega arith)
length-remove_at (suc i) (x ∷ xs) h = omega (arith, length-remove_at i xs)

is_at_inside : (self j : ℕ) (xs : List ℕ) → is_at self xs j ≡ true → j < length xs
is_at_inside self j [] h = cc
is_at_inside self zero (x ∷ xs) h = omega arith
is_at_inside self (suc j) (x ∷ xs) h = omega (arith, is_at_inside self j xs h)

-- One more id at the front of those that are left alone.
select-take :
    (self i : ℕ) (xs : List ℕ)
    → i < length xs
    → select (is_other self) (take (suc i) xs) ++ drop (suc i) xs ≡ (
        if is_at self xs i
        then select (is_other self) (take i xs) ++ drop (suc i) xs
        else select (is_other self) (take i xs) ++ drop i xs)
select-take self i [] h = absurd (omega arith)
select-take self zero (x ∷ xs) h = ground arith
select-take self (suc i) (x ∷ xs) h = ground (arith, select-take self i xs)

take_all : (xs : List ℕ) → take (length xs) xs ≡ xs
take_all [] = refl
take_all (x ∷ xs) = ap (◌∷◌ x) (take_all xs)

drop_all : (xs : List ℕ) → drop (length xs) xs ≡ []
drop_all [] = refl
drop_all (x ∷ xs) = drop_all xs

check_ids-contact_ids :
    (self n : ℕ) (s : Checked)
    → n ≤ length s.contact_ids
    → (check_ids self n s).contact_ids
      ≡ select (is_other self) (take n s.contact_ids) ++ drop n s.contact_ids
unfolding check_ids
check_ids-contact_ids self zero s h = refl
check_ids-contact_ids self (suc i) s h = elim (Bool-cases (is_at self s.contact_ids i)) [
  | inl here ↦
      let xs = remove_at i s.contact_ids in
      let s' : Checked = record {
        contact_ids = xs;
        error_map = insert i permissions_error s.error_map;
        request = set_last_error s.request permissions_error;
      } in
      let ih = check_ids-contact_ids self i s' (omega (arith, length-remove_at i s.contact_ids)) in
      ground (
        arith,
        ih,
        take-remove_at i s.contact_ids,
        drop-remove_at i s.contact_ids,
        select-take self i s.contact_ids,
      )
  | inr there ↦
      ground (arith, check_ids-contact_ids self i s (omega arith), select-take self i s.contact_ids)
]

lookup-check_ids :
    (self n j : ℕ) (s : Checked)
    → lookup j (check_ids self n s).error_map ≡ (
        if ltb j n && is_at self s.contact_ids j
        then some permissions_error
        else lookup j s.error_map)
unfolding check_ids
lookup-check_ids self zero j s = ground arith
lookup-check_ids self (suc i) j s = elim (Bool-cases (is_at self s.contact_ids i)) [
  | inl here ↦
      let s' : Checked = record {
        contact_ids = remove_at i s.contact_ids;
        error_map = insert i permissions_error s.error_map;
        request = set_last_error s.request permissions_error;
      } in
      ground (
        arith,
        lookup-check_ids self i j s',
        get_elem?-remove_at i j s.contact_ids,
        lookup-insert i j permissions_error s.error_map,
      )
  | inr there ↦ ground (arith, lookup-check_ids self i j s)
]

any-take :
    (self i : ℕ) (xs : List ℕ)
    → any (◌==◌ self) (take (suc i) xs) ≡ (any (◌==◌ self) (take i xs) || is_at self xs i)
any-take self zero [] = refl
any-take self (suc i) [] = refl
any-take self zero (x ∷ xs) = ground arith
any-take self (suc i) (x ∷ xs) = ground (arith, any-take self i xs)

request-check_ids :
    (self n : ℕ) (s : Checked)
    → (check_ids self n s).request ≡ (
        if any (◌==◌ self) (take n s.contact_ids)
        then set_last_error s.request permissions_error
        else s.request)
unfolding check_ids
request-check_ids self zero s = refl
request-check_ids self (suc i) s = elim (Bool-cases (is_at self s.contact_ids i)) [
  | inl here ↦
      let s' : Checked = record {
        contact_ids = remove_at i s.contact_ids;
        error_map = insert i permissions_error s.error_map;
        request = set_last_error s.request permissions_error;
      } in
      ground (
        arith,
        request-check_ids self i s',
        any-take self i s.contact_ids,
        take-remove_at i s.contact_ids,
      )
  | inr there ↦ ground (arith, request-check_ids self i s, any-take self i s.contact_ids)
]

abbrev pub start : Request → List ℕ → Checked
start r ids = record { contact_ids = ids; error_map = []; request = r }

-- The check of the ids takes out the self contact, wherever and however often it stands, and keeps
-- the other ids in their order. A position gets a permissions error exactly if the self contact
-- stands there, counted in the list that the client gave, and no other error; the request gets that
-- error exactly if there is such a position.
pub check_ids_lem :
    (self j : ℕ) (r : Request) (ids : List ℕ)
    → let s = check_ids self (length ids) (start r ids) in
      (s.contact_ids ≡ select (is_other self) ids)
      × (lookup j s.error_map ≡ (if is_at self ids j then some permissions_error else none))
      × (s.request ≡ (if any (◌==◌ self) ids then set_last_error r permissions_error else r))
check_ids_lem self j r ids =
    let contact_ids = check_ids-contact_ids self (length ids) (start r ids) (omega arith) in
    let errors = lookup-check_ids self (length ids) j (start r ids) in
    let request = request-check_ids self (length ids) (start r ids) in
    (
      ground
          (arith, contact_ids, take_all ids, drop_all ids, append-nil (select (is_other self) ids)),
      unfold lookup in ground (arith, errors, is_at_inside self j ids),
      ground (arith, request, take_all ids),
    )
