-- ===== src/Detail/Chains.antt =====
-- src/dao/contactdetail.cpp: what the predicate chains of a detail are.
use qtcontacts_tracker.Base.{
  Bool, true, false, not, ◌||◌, if◌then◌else◌, same_text_iff, List, [], ◌∷◌, ◌++◌, none, some, any,
  is_empty, All, All-append, ◌≡◌, ◌↔◌, arith, refl, Bool-cases, Option-cases, inl, inr,
}
use mathlib.Core.Path.{subst}
use mathlib.Core.Option.{some-injective}
use qtcontacts_tracker.Detail.{
  Property, Chain, starts_with, has_inverse_property, same_chain, add, before_inverse, without_last,
  predicate_chain, is_foreign_key, DetailChains, fields_loop, is_possessed_chain, possessed_loop,
  compute_predicate_chains, nothing,
}

-- A chain that goes forward along at least one property.
abbrev pub IsForward : Chain → Type 0
IsForward c = (has_inverse_property c ≡ false) × (is_empty c ≡ false)

-- A chain that extends none of the foreign key chains.
abbrev pub IsPossessed : List Chain → Chain → Type 0
IsPossessed keys c = any (starts_with c) keys ≡ false

without_last-forward :
    (c d : Chain)
    → without_last c ≡ some d
    → has_inverse_property c ≡ false
    → has_inverse_property d ≡ false
unfolding has_inverse_property
without_last-forward [] d e h = cc
without_last-forward (p ∷ []) d e h =
    subst (λ c. any (λ p. p.is_inverse) c ≡ false) (some-injective _ _ e) refl
without_last-forward (p ∷ q ∷ qs) d e h = elim (Option-cases (without_last (q ∷ qs))) [
  | inl nothing ↦ ground (arith, e, nothing)
  | inr (c, found) ↦
      let rest = without_last-forward (q ∷ qs) c found (ground (arith, h)) in
      ground (arith, e, found, h, rest)
]

before_inverse-forward : (c : Chain) → has_inverse_property (before_inverse c) ≡ false
unfolding has_inverse_property
before_inverse-forward [] = refl
before_inverse-forward (p ∷ ps) = ground (arith, before_inverse-forward ps)

is_possessed_chain_lem :
    (keys : List Chain) (c : Chain) → is_possessed_chain keys c ≡ not (any (starts_with c) keys)
unfolding is_possessed_chain
is_possessed_chain_lem [] c = refl
is_possessed_chain_lem (key ∷ keys) c = ground (arith, is_possessed_chain_lem keys c)

All-add : (P : Chain → Type 0) (cs : List Chain) (c : Chain) → All P cs → P c → All P (add cs c)
All-add P cs c a p = elim (Bool-cases (any (same_chain c) cs)) [
  | inl old ↦ rw old a
  | inr new ↦ rw new (All-append P cs (c ∷ []) a (p, tt))
]

possessed_loop-IsPossessed :
    (keys possessed cs : List Chain)
    → All (IsPossessed keys) possessed
    → All (IsPossessed keys) (possessed_loop keys possessed cs)
unfolding possessed_loop
possessed_loop-IsPossessed keys possessed [] a = a
possessed_loop-IsPossessed keys possessed (c ∷ cs) a =
    elim (Bool-cases (is_possessed_chain keys c)) [
      | inl free ↦
          let p : IsPossessed keys c = ground (arith, free, is_possessed_chain_lem keys c) in
          rw free (
            possessed_loop-IsPossessed keys (add possessed c) cs
              (All-add (IsPossessed keys) possessed c a p))
      | inr shared ↦ rw shared (possessed_loop-IsPossessed keys possessed cs a)
    ]

same_chain_refl : (c : Chain) → same_chain c c ≡ true
same_chain_refl [] = refl
same_chain_refl (p ∷ ps) = ground (arith, same_text_iff p.iri p.iri, same_chain_refl ps)

any-snoc :
    (f : Chain → Bool) (cs : List Chain) (c : Chain) → any f (cs ++ c ∷ []) ≡ (any f cs || f c)
any-snoc f [] c = ground arith
any-snoc f (x ∷ cs) c = ground (arith, any-snoc f cs c)

-- A set keeps its chains, and has what is added.
add-keeps :
    (c d : Chain) (cs : List Chain)
    → any (same_chain c) cs ≡ true
    → any (same_chain c) (add cs d) ≡ true
add-keeps c d cs e = ground (arith, e, any-snoc (same_chain c) cs d)

add-has : (c : Chain) (cs : List Chain) → any (same_chain c) (add cs c) ≡ true
add-has c cs = ground (arith, any-snoc (same_chain c) cs c, same_chain_refl c)

possessed_loop-keeps :
    (keys possessed cs : List Chain) (c : Chain)
    → any (same_chain c) possessed ≡ true
    → any (same_chain c) (possessed_loop keys possessed cs) ≡ true
unfolding possessed_loop
possessed_loop-keeps keys possessed [] c e = e
possessed_loop-keeps keys possessed (d ∷ cs) c e = ground (
  arith,
  possessed_loop-keeps keys possessed cs c e,
  possessed_loop-keeps keys (add possessed d) cs c (add-keeps c d possessed e),
)

-- A chain is among the possessed ones, or extends a foreign key chain.
abbrev pub IsSorted : List Chain → List Chain → Chain → Type 0
IsSorted keys possessed c = (any (same_chain c) possessed || any (starts_with c) keys) ≡ true

possessed_loop-IsSorted :
    (keys possessed cs result : List Chain)
    → possessed_loop keys possessed cs ≡ result
    → All (IsSorted keys result) cs
unfolding possessed_loop
possessed_loop-IsSorted keys possessed [] result e = tt
possessed_loop-IsSorted keys possessed (c ∷ cs) result e =
    elim (Bool-cases (is_possessed_chain keys c)) [
      | inl free ↦
          let e' : possessed_loop keys (add possessed c) cs ≡ result = ground (arith, e, free) in
          let has = possessed_loop-keeps keys (add possessed c) cs c (add-has c possessed) in
          (ground (arith, has, e'), possessed_loop-IsSorted keys (add possessed c) cs result e')
      | inr shared ↦
          let e' : possessed_loop keys possessed cs ≡ result = ground (arith, e, shared) in
          (
            ground (arith, shared, is_possessed_chain_lem keys c),
            possessed_loop-IsSorted keys possessed cs result e',
          )
    ]

predicate_chain-forward :
    (field c : Chain) → predicate_chain field ≡ some c → has_inverse_property c ≡ false
unfolding predicate_chain
predicate_chain-forward field c e =
    without_last-forward (before_inverse field) c e (before_inverse-forward field)

fields_loop-IsForward :
    (d d' : DetailChains) (fields : List Chain)
    → fields_loop d fields ≡ some d'
    → All IsForward d.predicate_chains
    → All IsForward d'.predicate_chains
unfolding fields_loop
fields_loop-IsForward d d' [] e a =
    subst (λ x. All IsForward x.predicate_chains) (some-injective _ _ e) a
fields_loop-IsForward d d' ([] ∷ fields) e a = fields_loop-IsForward d d' fields e a
fields_loop-IsForward d d' ((p ∷ ps) ∷ fields) e a =
    elim (Option-cases (predicate_chain (p ∷ ps))) [
      | inl undefined ↦ ground (arith, e, undefined)
      | inr ([], found) ↦
          let e' : fields_loop d fields ≡ some d' = ground (arith, e, found) in
          fields_loop-IsForward d d' fields e' a
      | inr (q ∷ qs, found) ↦
          let chain : Chain = q ∷ qs in
          let grown : DetailChains = record d {
            foreign_key_chains =
                if is_foreign_key (p ∷ ps)
                then add d.foreign_key_chains chain
                else d.foreign_key_chains;
            predicate_chains = add d.predicate_chains chain;
          } in
          let e' : fields_loop grown fields ≡ some d' = ground (arith, e, found) in
          fields_loop-IsForward grown d' fields e' (
            All-add IsForward d.predicate_chains chain a
              (predicate_chain-forward (p ∷ ps) chain found, refl))
    ]

-- Where the chains of a detail are defined, each predicate chain goes forward along one property
-- or more; each possessed chain extends no foreign key chain; and each predicate chain is possessed
-- or extends a foreign key chain.
pub compute_predicate_chains_lem :
    (fields : List Chain) (d : DetailChains)
    → compute_predicate_chains fields ≡ some d
    → All IsForward d.predicate_chains
      × All (IsPossessed d.foreign_key_chains) d.possessed_chains
      × All (IsSorted d.foreign_key_chains d.possessed_chains) d.predicate_chains
unfolding compute_predicate_chains
compute_predicate_chains_lem fields d e = elim (Option-cases (fields_loop nothing fields)) [
  | inl undefined ↦ ground (arith, e, undefined)
  | inr (c, found) ↦
      let keys = c.foreign_key_chains in
      let cs = c.predicate_chains in
      let done : some (record c { possessed_chains = possessed_loop keys [] cs }) ≡ some d =
        ground (arith, e, found) in
      subst
        (λ d.
          All IsForward d.predicate_chains
          × All (IsPossessed d.foreign_key_chains) d.possessed_chains
          × All (IsSorted d.foreign_key_chains d.possessed_chains) d.predicate_chains)
        (some-injective _ _ done)
        (
          fields_loop-IsForward nothing c fields found tt,
          possessed_loop-IsPossessed keys [] cs tt,
          possessed_loop-IsSorted keys [] cs (possessed_loop keys [] cs) refl,
        )
]

without_last_total : (p : Property) (ps : Chain) → (c : Chain) × (without_last (p ∷ ps) ≡ some c)
without_last_total p [] = ([], refl)
without_last_total p (q ∷ qs) =
    let rest = without_last_total q qs in (p ∷ rest.0, ground (arith, rest.1))

-- The end of a predicate chain is undefined exactly if the first property of the chain is an
-- inverse one.
pub predicate_chain_undefined :
    (p : Property) (ps : Chain) → (predicate_chain (p ∷ ps) ≡ none) ↔ (p.is_inverse ≡ true)
unfolding predicate_chain
predicate_chain_undefined p ps = ground (arith, (without_last_total p (before_inverse ps)).1)
