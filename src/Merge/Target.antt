-- ===== src/Merge/Target.antt =====
-- src/engine/contactcopyandremoverequest.cpp: the sync target of a merged contact.
use qtcontacts_tracker.Base.{
  ℕ, Bool, true, false, not, if◌then◌else◌, Text, nat_eq, List, [], ◌∷◌, Option, none, some, any,
  select, is_empty, same_text, ◌≡◌, arith, refl, All, same_text_iff, Bool-cases, inl, inr,
}
use qtcontacts_tracker.Merge.{
  same_folded, is_mfe, mfe_loop, first_of, or_target, pick_other, pick_preferred_sync_target,
  sync_targets,
}

-- The outcome, by the targets that are MFE accounts and the one to take without any.
abbrev pub by_accounts : List Text → Text → Option Text
by_accounts [] other = some other
by_accounts (t ∷ []) other = some t
by_accounts (t ∷ u ∷ us) other = none

module _ (fold : ℕ → ℕ) where
  -- A loop that has found an account ends with it, unless there is another one.
  mfe_loop_found :
      (c : ℕ) (cs : Text) (ts : List Text)
      → mfe_loop fold (c ∷ cs) ts ≡ by_accounts ((c ∷ cs) ∷ select (is_mfe fold) ts) []
  unfolding mfe_loop
  mfe_loop_found c cs [] = refl
  mfe_loop_found c cs (t ∷ ts) = elim (Bool-cases (is_mfe fold t)) [
    | inl e ↦ ground (arith, e)
    | inr e ↦ ground (arith, e, mfe_loop_found c cs ts)
  ]

  mfe_loop_lem : (ts : List Text) → mfe_loop fold [] ts ≡ by_accounts (select (is_mfe fold) ts) []
  unfolding mfe_loop
  mfe_loop_lem [] = refl
  mfe_loop_lem ([] ∷ ts) = mfe_loop_lem ts
  mfe_loop_lem ((c ∷ cs) ∷ ts) = elim (Bool-cases (is_mfe fold (c ∷ cs))) [
    | inl e ↦ ground (arith, e, mfe_loop_found c cs ts)
    | inr e ↦ ground (arith, e, mfe_loop_lem ts)
  ]

  is_mfe-some : (t : Text) → is_mfe fold t ≡ true → is_empty t ≡ false
  is_mfe-some [] e = cc
  is_mfe-some (c ∷ cs) e = refl

  -- Every text that a test selects passes it.
  select_passes : (p : Text → Bool) (ts : List Text) → All (λ t. p t ≡ true) (select p ts)
  select_passes p [] = tt
  select_passes p (t ∷ ts) = ground (arith, select_passes p ts)

  settle :
      (o : Option Text) (accounts : List Text) (other : Text)
      → o ≡ by_accounts accounts []
      → All (λ t. is_mfe fold t ≡ true) accounts
      → elim o [
        | none ↦ none
        | some final ↦ if not (is_empty final) then some final else some other
      ]
        ≡ by_accounts accounts other
  settle o [] other e a = rw e
  settle o (t ∷ []) other e a = rw (e, is_mfe-some t a.0)
  settle o (t ∷ u ∷ us) other e a = rw e

  -- A merge has the sync target of its only MFE account; with two of them it is an error, and with
  -- none the other rules pick a target.
  pub pick_preferred_sync_target_lem :
      (engine_target : Text) (targets : List Text) (destination : Text)
      → pick_preferred_sync_target fold engine_target targets destination
        ≡ by_accounts
            (select (is_mfe fold) targets)
            (pick_other fold engine_target targets destination)
  unfolding pick_preferred_sync_target
  pick_preferred_sync_target_lem engine_target targets destination =
      settle (mfe_loop fold [] targets) (select (is_mfe fold) targets)
        (pick_other fold engine_target targets destination) (mfe_loop_lem targets)
        (select_passes (is_mfe fold) targets)

  first_of-some :
      (p : Text → Bool) (ts : List Text) (default : Text)
      → any p ts ≡ true
      → (p (or_target (first_of p ts) default) ≡ true)
        × (any (same_text (or_target (first_of p ts) default)) ts ≡ true)
  first_of-some p [] default e = cc
  first_of-some p (t ∷ ts) default e = elim (Bool-cases (p t)) [
    | inl here ↦ ground (arith, here, same_text_iff t t)
    | inr not_here ↦ ground (arith, not_here, e, first_of-some p ts default)
  ]

  -- If none is an MFE account and one of the targets is the engine's, the target picked is the
  -- engine's, up to case, and is among them.
  pub pick_other-engine :
      (engine_target : Text) (targets : List Text) (destination : Text)
      → any (λ t. same_folded fold t engine_target) targets ≡ true
      → let picked = pick_other fold engine_target targets destination in
        (same_folded fold picked engine_target ≡ true) × (any (same_text picked) targets ≡ true)
  unfolding pick_other
  pick_other-engine engine_target targets destination h =
      first_of-some (λ t. same_folded fold t engine_target) targets _ h

  -- If none of the contacts has a sync target, the merged contact has none either: the engine's is
  -- not picked, unless it is empty itself.
  pub pick_preferred_sync_target_unset :
      (c : ℕ) (engine_target : Text) (target_of : Text → Text) (target source : Text)
      → target_of target ≡ []
      → target_of source ≡ []
      → pick_preferred_sync_target fold
          (c ∷ engine_target)
          (sync_targets target_of target (source ∷ []))
          (target_of target)
        ≡ some []
  unfolding pick_preferred_sync_target mfe_loop pick_other sync_targets
  pick_preferred_sync_target_unset c engine_target target_of target source t u =
      ground (arith, t, u)
