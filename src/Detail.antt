-- ===== src/Detail.antt =====
-- src/dao/contactdetail.cpp and src/dao/resourceinfo.cpp: the predicate chains of a detail.
--
-- A property is known by its IRI, and a `QSet` of chains is a list without repetition. The end of a
-- predicate chain lies one before the first inverse property; where this is in front of the chain
-- itself, the loop that copies the chain runs over its bounds, which is `none`.
use qtcontacts_tracker.Base.{
  Bool, true, false, not, ◌&&◌, ◌||◌, if◌then◌else◌, Text, same_text, List, [], ◌∷◌, ◌++◌, Option,
  none, some, any, is_empty,
}
pub mod Chains
mod Tests

pub record Property : Type 0 where
  pub iri : Text
  pub is_inverse : Bool
  pub is_foreign_key : Bool

abbrev pub Chain : Type 0
Chain = List Property

-- `startsWith` of a chain and another one: properties are equal if their IRIs are.
unfoldable pub starts_with : Chain → Chain → Bool
starts_with chain [] = true
starts_with [] (q ∷ qs) = false
starts_with (p ∷ ps) (q ∷ qs) = same_text p.iri q.iri && starts_with ps qs

unfoldable pub has_inverse_property : Chain → Bool
has_inverse_property chain = any (λ p. p.is_inverse) chain

abbrev pub same_chain : Chain → Chain → Bool
same_chain [] [] = true
same_chain [] (q ∷ qs) = false
same_chain (p ∷ ps) [] = false
same_chain (p ∷ ps) (q ∷ qs) = same_text p.iri q.iri && same_chain ps qs

abbrev pub add : List Chain → Chain → List Chain
add chains c = if any (same_chain c) chains then chains else chains ++ c ∷ []

-- The properties in front of the first inverse one.
abbrev pub before_inverse : Chain → Chain
before_inverse [] = []
before_inverse (p ∷ ps) = let rest = before_inverse ps in if p.is_inverse then [] else p ∷ rest

abbrev pub without_last : Chain → Option Chain
without_last [] = none
without_last (p ∷ []) = some []
without_last (p ∷ q ∷ qs) = elim (without_last (q ∷ qs)) [ none ↦ none | some c ↦ some (p ∷ c) ]

-- The chain from its begin to `endOfPredicateChain`.
unfoldable pub predicate_chain : Chain → Option Chain
predicate_chain chain = without_last (before_inverse chain)

-- A field is its property chain, empty if it has none; it is a foreign key if one of its properties
-- is.
abbrev pub is_foreign_key : Chain → Bool
is_foreign_key field = any (λ p. p.is_foreign_key) field

pub record DetailChains : Type 0 where
  pub predicate_chains : List Chain
  pub foreign_key_chains : List Chain
  pub possessed_chains : List Chain

-- The loop of `computePredicateChains` over the fields.
unfoldable pub fields_loop : DetailChains → List Chain → Option DetailChains
unfolding predicate_chain
fields_loop d [] = some d
fields_loop d ([] ∷ fields) = fields_loop d fields
fields_loop d ((p ∷ ps) ∷ fields) = elim (predicate_chain (p ∷ ps)) [
  | none ↦ none
  | some chain ↦
      if not (is_empty chain)
      then fields_loop
          (record d {
            foreign_key_chains =
                if is_foreign_key (p ∷ ps)
                then add d.foreign_key_chains chain
                else d.foreign_key_chains;
            predicate_chains = add d.predicate_chains chain;
          })
          fields
      else fields_loop d fields
]

-- `isPossessedChain`.
unfoldable pub is_possessed_chain : List Chain → Chain → Bool
unfolding starts_with
is_possessed_chain [] chain = true
is_possessed_chain (key ∷ keys) chain =
    let rest = is_possessed_chain keys chain in if starts_with chain key then false else rest

unfoldable pub possessed_loop : List Chain → List Chain → List Chain → List Chain
unfolding is_possessed_chain
possessed_loop keys possessed [] = possessed
possessed_loop keys possessed (c ∷ cs) =
    if is_possessed_chain keys c
    then possessed_loop keys (add possessed c) cs
    else possessed_loop keys possessed cs

abbrev pub nothing : DetailChains
nothing = record { predicate_chains = []; foreign_key_chains = []; possessed_chains = [] }

-- `computePredicateChains`.
unfoldable pub compute_predicate_chains : List Chain → Option DetailChains
unfolding fields_loop possessed_loop
compute_predicate_chains fields = elim (fields_loop nothing fields) [
  | none ↦ none
  | some d ↦
      some
        (record d { possessed_chains = possessed_loop d.foreign_key_chains [] d.predicate_chains })
]
