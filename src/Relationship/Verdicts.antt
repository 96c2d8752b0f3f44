-- ===== src/Relationship/Verdicts.antt =====
-- src/engine/relationshipsaverequest.cpp and src/engine/relationshipremoverequest.cpp: which
-- relationships are accepted, and what a batch reports.
use qtcontacts_tracker.Base.{
  ℕ, zero, suc, ◌+◌, ◌<◌, ◌≡◌, ◌≢◌, ◌↔◌, inl, inr, refl, Option-cases, Bool, false, Text, text_eq,
  list_beq_iff, nat_eq, List, [], ◌∷◌, Option, none, some, get_elem?, lookup, insert, lookup-insert,
  or_else, is_empty, arith, map, select, not, ◌&&◌, ◌||◌, ◌==◌, same_text, if◌then◌else◌, ◌∙◌,
}
use native.Mathlib.Nat.{add-zero}
use Prim.Native.Nat.add
use qtcontacts_tracker.Request.{
  Request, Error, Answer, not_supported_error, invalid_relationship_error,
}
use qtcontacts_tracker.Relationship.{
  Relationship, Membership, membership, save_verdict, remove_verdict, batch_from, save, remove,
}

-- A relationship of two different contacts of the manager.
pub record IsLocal (has_member manager_uri : Text) (r : Relationship) : Type 0 where
  pub is_member : r.kind ≡ has_member
  pub group_local : r.first.manager_uri ≡ manager_uri
  pub member_local : r.second.manager_uri ≡ manager_uri
  pub different : r.first.local_id ≢ r.second.local_id

module _ (has_member manager_uri : Text) where
  -- Removing accepts exactly the memberships of two different local contacts.
  pub remove_verdict-IsLocal :
      (r : Relationship)
      → ((remove_verdict has_member manager_uri r).1 ≡ none) ↔ IsLocal has_member manager_uri r
  unfolding remove_verdict
  remove_verdict-IsLocal r = ground (
    arith,
    list_beq_iff nat_eq r.kind has_member,
    list_beq_iff nat_eq r.first.manager_uri manager_uri,
    list_beq_iff nat_eq r.second.manager_uri manager_uri,
  )

  -- Saving also accepts a member whose manager is not given.
  abbrev pub is_savable : Relationship → Bool
  is_savable r =
      (same_text r.kind has_member && same_text r.first.manager_uri manager_uri)
      && ((is_empty r.second.manager_uri || same_text r.second.manager_uri manager_uri)
          && not (r.first.local_id == r.second.local_id))

  -- `NotSupportedError` is for other kinds, and for a foreign member of a local group.
  abbrev pub is_supported : Relationship → Bool
  is_supported r =
      same_text r.kind has_member
      && (not (same_text r.first.manager_uri manager_uri)
          || (is_empty r.second.manager_uri || same_text r.second.manager_uri manager_uri))

  abbrev pub save_error : Relationship → Option Error
  save_error r =
      if is_savable r
      then none
      else if is_supported r
      then some invalid_relationship_error
      else some not_supported_error

  save_verdict-error : (r : Relationship) → (save_verdict has_member manager_uri r).1 ≡ save_error r
  unfolding save_verdict
  save_verdict-error r = ground arith

  save_verdict-membership :
      (r : Relationship) → membership (save_verdict has_member manager_uri r).0 ≡ membership r
  unfolding save_verdict
  save_verdict-membership r = ground arith

  -- A relationship that saving accepts is left as a membership of two different local contacts, so
  -- removing what was saved is accepted too, and names the same member and group.
  pub save-remove_verdict :
      (r : Relationship)
      → (save_verdict has_member manager_uri r).1 ≡ none
      → let saved = (save_verdict has_member manager_uri r).0 in
        IsLocal has_member manager_uri saved
        × (remove_verdict has_member manager_uri saved ≡ (saved, none))
        × (membership saved ≡ membership r)
  unfolding save_verdict remove_verdict
  save-remove_verdict r h = ground (
    arith,
    list_beq_iff nat_eq r.kind has_member,
    list_beq_iff nat_eq r.first.manager_uri manager_uri,
    list_beq_iff nat_eq r.second.manager_uri manager_uri,
    list_beq_iff nat_eq manager_uri manager_uri,
  )

abbrev pub error_at :
    (Relationship → Relationship × Option Error) → List Relationship → ℕ → Option Error
error_at verdict rs j = elim (get_elem? rs j) [ none ↦ none | some r ↦ (verdict r).1 ]

module _ (verdict : Relationship → Relationship × Option Error) where
  lookup-batch_from-lt :
      (i j : ℕ) (m : List (ℕ × Error)) (rs : List Relationship)
      → j < i
      → lookup j (batch_from verdict i m rs).error_map ≡ lookup j m
  unfolding batch_from
  lookup-batch_from-lt i j m [] h = refl
  lookup-batch_from-lt i j m (r ∷ rs) h = elim (Option-cases (verdict r).1) [
    | inl e ↦ ground (arith, e, lookup-batch_from-lt (suc i) j m rs)
    | inr (x, e) ↦
        ground (arith, e, lookup-batch_from-lt (suc i) j (insert i x m) rs, lookup-insert i j x m)
  ]

  lookup-batch_from :
      (i j : ℕ) (m : List (ℕ × Error)) (rs : List Relationship)
      → lookup (i + j) (batch_from verdict i m rs).error_map
        ≡ or_else (error_at verdict rs j) (lookup (i + j) m)
  unfolding batch_from
  lookup-batch_from i j m [] = refl
  lookup-batch_from i zero m (r ∷ rs) = elim (Option-cases (verdict r).1) [
    | inl e ↦ rw add-zero (ground (arith, e, lookup-batch_from-lt (suc i) i m rs))
    | inr (x, e) ↦
        rw add-zero (
          ground
            (arith, e, lookup-batch_from-lt (suc i) i (insert i x m) rs, lookup-insert i i x m))
  ]
  lookup-batch_from i (suc j) m (r ∷ rs) =
      let shift : i + suc j ≡ suc i + j = omega arith in
      elim (Option-cases (verdict r).1) [
        | inl e ↦ rw shift (ground (arith, e, lookup-batch_from (suc i) j m rs))
        | inr (x, e) ↦ rw shift (
            ground (
              arith,
              e,
              lookup-batch_from (suc i) j (insert i x m) rs,
              lookup-insert i (suc i + j) x m,
            ))
      ]

  -- The relationships that a list has accepted, as they are left.
  abbrev pub accepted : List Relationship → List Relationship
  accepted [] = []
  accepted (r ∷ rs) =
      let rest = accepted rs in elim (verdict r).1 [ none ↦ (verdict r).0 ∷ rest | some e ↦ rest ]

  queries-batch_from :
      (i : ℕ) (m : List (ℕ × Error)) (rs : List Relationship)
      → (batch_from verdict i m rs).queries ≡ map membership (accepted rs)
  unfolding batch_from
  queries-batch_from i m [] = refl
  queries-batch_from i m (r ∷ rs) = elim (Option-cases (verdict r).1) [
    | inl e ↦ ground (arith, e, queries-batch_from (suc i) m rs)
    | inr (x, e) ↦ ground (arith, e, queries-batch_from (suc i) (insert i x m) rs)
  ]

  -- A batch names the members and groups of the accepted relationships, in order, and reports for
  -- each position the error of the relationship that stands there, or none.
  pub batch_from_lem :
      (j : ℕ) (rs : List Relationship)
      → let b = batch_from verdict 0 [] rs in
        (b.queries ≡ map membership (accepted rs)) × (lookup j b.error_map ≡ error_at verdict rs j)
  batch_from_lem j rs = (
    queries-batch_from 0 [] rs,
    unfold lookup in
        ground
          (arith, add.zero j, lookup-batch_from 0 j [] rs, Option-cases (error_at verdict rs j)),
  )

module _ (has_member manager_uri : Text) where
  accepted-savable :
      (rs : List Relationship)
      → map membership (accepted (save_verdict has_member manager_uri) rs)
        ≡ map membership (select (is_savable has_member manager_uri) rs)
  accepted-savable [] = refl
  accepted-savable (r ∷ rs) = ground (
    arith,
    accepted-savable rs,
    save_verdict-error has_member manager_uri r,
    save_verdict-membership has_member manager_uri r,
  )

  error_at-save_error :
      (rs : List Relationship) (j : ℕ)
      → error_at (save_verdict has_member manager_uri) rs j
        ≡ (elim (get_elem? rs j) [ none ↦ none | some r ↦ save_error has_member manager_uri r ])
  error_at-save_error [] j = refl
  error_at-save_error (r ∷ rs) zero = save_verdict-error has_member manager_uri r
  error_at-save_error (r ∷ rs) (suc j) = error_at-save_error rs j

module _ (has_member manager_uri : Text) (valid : Bool) (exec : List Membership → Answer (Unit {0}))
    (j : ℕ) (r : Request) (rs : List Relationship) where
  -- A save request that is not canceled and has relationships names, in order, the members and
  -- groups of exactly the memberships of two different contacts whose group is of this manager and
  -- whose member is of this manager or of none. At the position of every other relationship, and
  -- only there, it reports an error: `NotSupportedError` for another kind and for a foreign member
  -- of a local group, otherwise `InvalidRelationshipError`.
  pub save_lem :
      r.canceled ≡ false
      → is_empty rs ≡ false
      → let b = (save has_member manager_uri valid exec r rs).1 in
        (b.queries ≡ map membership (select (is_savable has_member manager_uri) rs))
        × (lookup j b.error_map ≡ (elim (get_elem? rs j) [
          | none ↦ none
          | some r ↦ save_error has_member manager_uri r
        ]))
  unfolding save
  save_lem go some_ =
      let (queries, error) = batch_from_lem (save_verdict has_member manager_uri) j rs in
      let queries' = queries ∙ accepted-savable has_member manager_uri rs in
      let error' = error ∙ error_at-save_error has_member manager_uri rs j in
      ground (arith, go, some_, queries', error')

  -- So does a remove request that is not canceled; that it goes through its relationships twice
  -- makes no difference.
  pub remove_lem :
      r.canceled ≡ false
      → let b = (remove has_member manager_uri valid exec r rs).1 in
        (b.queries ≡ map membership (accepted (remove_verdict has_member manager_uri) rs))
        × (lookup j b.error_map ≡ error_at (remove_verdict has_member manager_uri) rs j)
  unfolding remove
  remove_lem go =
      let verdict = remove_verdict has_member manager_uri in
      let m = (batch_from verdict 0 [] rs).error_map in
      ground (
        arith,
        batch_from_lem verdict j rs,
        queries-batch_from verdict 0 m rs,
        lookup-batch_from verdict 0 j m rs,
        add.zero j,
        Option-cases (error_at verdict rs j),
      )
