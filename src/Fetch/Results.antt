-- ===== src/Fetch/Results.antt =====
-- src/engine/abstractcontactfetchrequest.cpp: which contacts the rows of a result give.
use qtcontacts_tracker.Base.{
  ℕ, suc, ◌≤◌, Bool, leb, List, [], ◌∷◌, ◌++◌, none, some, length, length-append, nat_eq, ==_iff,
  lookup, insert, ◌≡◌, refl, arith, ap, sym, ◌∙◌, Bool-cases, Option-cases, inl, inr,
}
use mathlib.Core.List.{append_assoc, append-nil}
use qtcontacts_tracker.Fetch.{Fetched, add_contact, fetch_results}

module _ {C : Type 0} where
  abbrev pub ids_of : List (ℕ × C) → List ℕ
  ids_of [] = []
  ids_of ((id, c) ∷ m) = id ∷ ids_of m

  length-ids_of : (m : List (ℕ × C)) → length (ids_of m) ≡ length m
  length-ids_of [] = refl
  length-ids_of ((id, c) ∷ m) = ap suc (length-ids_of m)

  insert-ids_of_known :
      (id : ℕ) (c c' : C) (m : List (ℕ × C))
      → lookup id m ≡ some c'
      → ids_of (insert id c m) ≡ ids_of m
  unfolding insert lookup
  insert-ids_of_known id c c' [] h = absurd (ground (arith, h))
  insert-ids_of_known id c c' ((j, d) ∷ m) h =
      ground (arith, h, ==_iff j id, insert-ids_of_known id c c' m)

  insert-ids_of_new :
      (id : ℕ) (c : C) (m : List (ℕ × C))
      → lookup id m ≡ none
      → ids_of (insert id c m) ≡ ids_of m ++ (id ∷ [])
  unfolding insert lookup
  insert-ids_of_new id c [] h = refl
  insert-ids_of_new id c ((j, d) ∷ m) h = ground (arith, h, insert-ids_of_new id c m)

module _ {C : Type 0} (limit : ℕ) where
  -- New contacts, with their ids in the same order, and no more than the limit.
  abbrev Grown : Fetched C → Fetched C → Type 0
  Grown s s' =
      (new : List ℕ) × (ids_of s'.contacts ≡ ids_of s.contacts ++ new)
      × (s'.contact_ids ≡ s.contact_ids ++ new)
      × (length s'.contacts ≤ limit)

  Grown-same : (s : Fetched C) → length s.contacts ≤ limit → Grown s s
  Grown-same s l = ([], sym (append-nil (ids_of s.contacts)), sym (append-nil s.contact_ids), l)

  Grown-known :
      (s s₁ s' : Fetched C)
      → ids_of s₁.contacts ≡ ids_of s.contacts
      → s₁.contact_ids ≡ s.contact_ids
      → Grown s₁ s'
      → Grown s s'
  Grown-known s s₁ s' e e' (new, h, h', l) =
      (new, h ∙ ap (λ ids. ids ++ new) e, h' ∙ ap (λ ids. ids ++ new) e', l)

  Grown-new :
      (id : ℕ) (s s₁ s' : Fetched C)
      → ids_of s₁.contacts ≡ ids_of s.contacts ++ (id ∷ [])
      → s₁.contact_ids ≡ s.contact_ids ++ (id ∷ [])
      → Grown s₁ s'
      → Grown s s'
  Grown-new id s s₁ s' e e' (new, h, h', l) = (
    id ∷ new,
    h ∙ ap (λ ids. ids ++ new) e ∙ append_assoc (ids_of s.contacts) (id ∷ []) new,
    h' ∙ ap (λ ids. ids ++ new) e' ∙ append_assoc s.contact_ids (id ∷ []) new,
    l,
  )

module _ {R C : Type 0} (local_id : R → ℕ) (new_contact : ℕ → C) (read : R → C → C) where
  -- With a limit, and not more contacts than that before, there are not more after the rows were
  -- read. The ids of the contacts are those that were there and then those of the new ones, which are
  -- also what is added to the list of ids, in the same order.
  pub fetch_results_lem :
      (limit : ℕ) (canceled : ℕ → Bool) (i : ℕ) (rows : List R) (s : Fetched C)
      → length s.contacts ≤ limit
      → let s' = fetch_results local_id new_contact read (some limit) canceled i rows s in
        (new : List ℕ) × (ids_of s'.contacts ≡ ids_of s.contacts ++ new)
        × (s'.contact_ids ≡ s.contact_ids ++ new)
        × (length s'.contacts ≤ limit)
  unfolding fetch_results
  fetch_results_lem limit canceled i [] s l = Grown-same limit s l
  fetch_results_lem limit canceled i (row ∷ rows) s l =
      let id = local_id row in
      elim (Bool-cases (canceled i)) [
        | inl c ↦ rw (fetch_results, c) (Grown-same limit s l)
        | inr c ↦ elim (Option-cases (lookup id s.contacts)) [
          | inr (contact, h) ↦
              let s₁ = add_contact read id row contact s in
              let e = insert-ids_of_known id (read row contact) contact s.contacts h in
              let l' : length s₁.contacts ≤ limit =
                omega
                  (arith, l, length-ids_of s₁.contacts, length-ids_of s.contacts, ap length e) in
              let grown = fetch_results_lem limit canceled (suc i) rows s₁ l' in
              rw (fetch_results, c, h) (Grown-known limit s s₁ (next s₁) e refl grown)
          | inl h ↦ elim (Bool-cases (leb limit (length s.contacts))) [
            | inl full ↦ rw (fetch_results, c, h, full) (Grown-same limit s l)
            | inr free ↦
                let s₀ : Fetched C = record s { contact_ids = s.contact_ids ++ (id ∷ []) } in
                let s₁ = add_contact read id row (new_contact id) s₀ in
                let e = insert-ids_of_new id (read row (new_contact id)) s.contacts h in
                let l' : length s₁.contacts ≤ limit = ground (
                  arith,
                  free,
                  length-ids_of s₁.contacts,
                  length-ids_of s.contacts,
                  ap length e,
                  length-append (ids_of s.contacts) (id ∷ []),
                ) in
                let grown = fetch_results_lem limit canceled (suc i) rows s₁ l' in
                rw (fetch_results, c, h, free) (Grown-new limit id s s₁ (next s₁) e refl grown)
          ]
        ]
      ]
    where
      next : Fetched C → Fetched C
      next s' = fetch_results local_id new_contact read (some limit) canceled (suc i) rows s'
