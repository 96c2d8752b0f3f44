-- ===== src/Merge/Single.antt =====
-- src/engine/contactcopyandremoverequest.cpp: predicates that take one value.
use qtcontacts_tracker.Base.{Bool, true, false, Text, List, [], ◌∷◌, All, ◌≡◌, Bool-cases, inl, inr}
use qtcontacts_tracker.Merge.{
  Predicates, values, has_single, single_loop, merge_contacts, merge_sources,
}
use qtcontacts_tracker.Merge.Once.{Extends, Once, Extends-append, noted-Extends, same-Extends}

pub single_loop-Extends :
    (target source : Text) (graphed : Bool) (t : Predicates) (ps : List Text)
    → let (t', is) = single_loop target source graphed t ps in Extends target t is t'
unfolding single_loop
single_loop-Extends target source graphed t [] = same-Extends target t
single_loop-Extends target source graphed t (p ∷ ps) = elim (Bool-cases (has_single t target p)) [
  | inl has ↦ rw has (single_loop-Extends target source graphed t ps)
  | inr lacks ↦ rw lacks (
      Extends-append (noted-Extends target source p graphed t lacks) (
        single_loop-Extends target source graphed (record t { single = (target, p) ∷ t.single })
          ps))
]

merge_contacts-Extends :
    (rdf_type : Text) (t : Predicates) (target source : Text)
    → let m = merge_contacts rdf_type t target source in Extends target t m.singles m.predicates
unfolding merge_contacts
merge_contacts-Extends rdf_type t target source =
    let graphed = single_loop-Extends target source true t (values source t.single_with_graph) in
    let t' = (single_loop target source true t (values source t.single_with_graph)).0 in
    Extends-append graphed (single_loop-Extends target source false t' (values source t'.single))

merge_sources-Extends :
    (rdf_type : Text) (t : Predicates) (target : Text) (sources : List Text)
    → let m = merge_sources rdf_type t target sources in Extends target t m.singles m.predicates
unfolding merge_sources
merge_sources-Extends rdf_type t target [] = same-Extends target t
merge_sources-Extends rdf_type t target (source ∷ sources) =
    Extends-append (merge_contacts-Extends rdf_type t target source) (
      merge_sources-Extends rdf_type (merge_contacts rdf_type t target source).predicates target
        sources)

-- However many contacts are merged into a target, no predicate that takes one value is inserted
-- twice, and none is that the target has already.
pub merge_sources-Once :
    (rdf_type : Text) (t : Predicates) (target : Text) (sources : List Text)
    → let m = merge_sources rdf_type t target sources in
      Once m.singles × All (λ i. has_single t target i.predicate ≡ false) m.singles
merge_sources-Once rdf_type t target sources =
    let x = merge_sources-Extends rdf_type t target sources in (x.once, x.lacking)
