-- ===== src/Merge/Whole.antt =====
-- src/engine/contactcopyandremoverequest.cpp: predicates that reach the target.
use qtcontacts_tracker.Base.{
  Bool, true, false, not, ◌&&◌, ◌||◌, Text, List, [], ◌∷◌, ◌++◌, any, All, All-append, same_text,
  same_text_iff, ◌≡◌, arith, refl,
}
use mathlib.Core.Path.{subst}
use qtcontacts_tracker.Merge.{
  Predicates, Insertion, values, has_single, single_loop, multi_loop, to_set, merge_contacts,
}
use qtcontacts_tracker.Merge.Once.{inserts}
use qtcontacts_tracker.Merge.Single.{single_loop-Extends}

-- What a table has, a larger one has.
kept :
    (P Q : Text → Bool) (is : List Insertion) (ps : List Text)
    → ((p : Text) → Q p ≡ (P p || inserts is p))
    → All (λ p. P p ≡ true) ps
    → All (λ p. Q p ≡ true) ps
kept P Q is [] h a = tt
kept P Q is (p ∷ ps) h a = (ground (arith, h p, a.0), kept P Q is ps h a.1)

loop_has_one :
    (target source q : Text) (graphed : Bool) (t : Predicates) (ps : List Text)
    → (any (λ p. same_text p q) ps
        && not (has_single (single_loop target source graphed t ps).0 target q))
      ≡ false
unfolding single_loop
loop_has_one target source q graphed t [] = refl
loop_has_one target source q graphed t (p ∷ ps) =
    let noted : Predicates = record t { single = (target, p) ∷ t.single } in
    ground (
      arith,
      (single_loop-Extends target source graphed t ps).has q,
      (single_loop-Extends target source graphed noted ps).has q,
      same_text_iff target target,
      same_text_iff p q,
      loop_has_one target source q graphed t ps,
      loop_has_one target source q graphed noted ps,
    )

all_members :
    (P : Text → Bool) (ps : List Text)
    → ((q : Text) → (any (λ p. same_text p q) ps && not (P q)) ≡ false)
    → All (λ p. P p ≡ true) ps
all_members P [] h = tt
all_members P (p ∷ ps) h =
    (ground (arith, h p, same_text_iff p p), all_members P ps (λ q. ground (arith, h q)))

loop_has :
    (target source : Text) (graphed : Bool) (t : Predicates) (ps : List Text)
    → All (λ p. has_single (single_loop target source graphed t ps).0 target p ≡ true) ps
loop_has target source graphed t ps =
    all_members (has_single (single_loop target source graphed t ps).0 target) ps
      (λ q. loop_has_one target source q graphed t ps)

-- The loop notes nothing for another contact.
loop_others :
    (target source other : Text) (graphed : Bool) (t : Predicates) (ps : List Text)
    → same_text target other ≡ false
    → values other (single_loop target source graphed t ps).0.single ≡ values other t.single
unfolding single_loop
loop_others target source other graphed t [] e = refl
loop_others target source other graphed t (p ∷ ps) e =
    let noted : Predicates = record t { single = (target, p) ∷ t.single } in
    ground (
      arith,
      e,
      loop_others target source other graphed t ps e,
      loop_others target source other graphed noted ps e,
    )

-- Every predicate with one value is noted for the target.
merge_contacts-has_single :
    (rdf_type : Text) (t : Predicates) (target source : Text)
    → same_text target source ≡ false
    → let m = merge_contacts rdf_type t target source in
      All
        (λ p. has_single m.predicates target p ≡ true)
        (values source t.single_with_graph ++ values source t.single)
unfolding merge_contacts
merge_contacts-has_single rdf_type t target source e =
    let ps = values source t.single_with_graph in
    let first = single_loop target source true t ps in
    let others = loop_others target source source true t ps e in
    let second = single_loop target source false first.0 (values source first.0.single) in
    let later = single_loop-Extends target source false first.0 (values source first.0.single) in
    let plain = loop_has target source false first.0 (values source first.0.single) in
    All-append (λ p. has_single second.0 target p ≡ true) ps (values source t.single)
      (kept (has_single first.0 target) (has_single second.0 target) second.1 ps later.has
        (loop_has target source true t ps))
      (subst (All (λ p. has_single second.0 target p ≡ true)) others plain)

-- One of the insertions copies the predicate from the source.
abbrev pub inserts_from : Text → List Insertion → Text → Bool
inserts_from source [] p = false
inserts_from source (i ∷ is) p =
    (same_text i.predicate p && same_text i.source source) || inserts_from source is p

inserts_from-append :
    (source : Text) (is js : List Insertion) (p : Text)
    → inserts_from source (is ++ js) p ≡ (inserts_from source is p || inserts_from source js p)
inserts_from-append source [] js p = refl
inserts_from-append source (i ∷ is) js p = ground (arith, inserts_from-append source is js p)

-- The loops insert from the source only.
inserts_from-single_loop :
    (target source : Text) (graphed : Bool) (t : Predicates) (ps : List Text) (q : Text)
    → inserts_from source (single_loop target source graphed t ps).1 q
      ≡ inserts (single_loop target source graphed t ps).1 q
unfolding single_loop
inserts_from-single_loop target source graphed t [] q = refl
inserts_from-single_loop target source graphed t (p ∷ ps) q =
    let noted : Predicates = record t { single = (target, p) ∷ t.single } in
    ground (
      arith,
      same_text_iff source source,
      inserts_from-single_loop target source graphed t ps q,
      inserts_from-single_loop target source graphed noted ps q,
    )

single_loop-multi :
    (target source : Text) (graphed : Bool) (t : Predicates) (ps : List Text)
    → let (t', is) = single_loop target source graphed t ps in
      (t'.multi ≡ t.multi) × (t'.multi_with_graph ≡ t.multi_with_graph)
unfolding single_loop
single_loop-multi target source graphed t [] = (refl, refl)
single_loop-multi target source graphed t (p ∷ ps) =
    let noted : Predicates = record t { single = (target, p) ∷ t.single } in
    let skipped = single_loop-multi target source graphed t ps in
    let added = single_loop-multi target source graphed noted ps in
    (ground (arith, skipped.0, added.0), ground (arith, skipped.1, added.1))

inserts_from-multi_loop :
    (rdf_type source : Text) (graphed : Bool) (ps : List Text) (q : Text)
    → inserts_from source (multi_loop rdf_type source graphed ps) q
      ≡ (any (λ p. same_text p q) ps && not (same_text q rdf_type))
unfolding multi_loop
inserts_from-multi_loop rdf_type source graphed [] q = refl
inserts_from-multi_loop rdf_type source graphed (p ∷ ps) q = ground (
  arith,
  same_text_iff source source,
  same_text_iff p q,
  inserts_from-multi_loop rdf_type source graphed ps q,
)

any-swapped : (q : Text) (ts : List Text) → any (same_text q) ts ≡ any (λ t. same_text t q) ts
any-swapped q [] = refl
any-swapped q (t ∷ ts) = ground (arith, same_text_iff q t, same_text_iff t q, any-swapped q ts)

any-to_set :
    (q : Text) (ts : List Text) → any (λ t. same_text t q) (to_set ts) ≡ any (λ t. same_text t q) ts
any-to_set q [] = refl
any-to_set q (t ∷ ts) =
    ground (arith, same_text_iff t q, any-swapped t (to_set ts), any-to_set q ts)

All-implies :
    (P Q : Text → Bool) (ps : List Text)
    → ((p : Text) → P p ≡ true → Q p ≡ true)
    → All (λ p. P p ≡ true) ps
    → All (λ p. Q p ≡ true) ps
All-implies P Q [] h a = tt
All-implies P Q (p ∷ ps) h a = (h p a.0, All-implies P Q ps h a.1)

-- One of the two loops over predicates with more values.
multi_loop_complete :
    (rdf_type source : Text) (graphed : Bool) (P : Text → Bool) (ps : List Text)
    → ((q : Text)
        → inserts_from source (multi_loop rdf_type source graphed (to_set ps)) q ≡ true
        → P q ≡ true)
    → All (λ p. (same_text p rdf_type || P p) ≡ true) ps
multi_loop_complete rdf_type source graphed P ps h =
    all_members (λ q. same_text q rdf_type || P q) ps
      (λ q. ground (
        arith,
        h q,
        inserts_from-multi_loop rdf_type source graphed (to_set ps) q,
        any-to_set q ps,
      ))

module _ (rdf_type : Text) (t : Predicates) (target source : Text) where
  singles-inserts :
      (p : Text)
      → let m = merge_contacts rdf_type t target source in
        has_single m.predicates target p ≡ true
        → (has_single t target p || inserts_from source m.singles p) ≡ true
  unfolding merge_contacts
  singles-inserts p h =
      let ps = values source t.single_with_graph in
      let first = single_loop target source true t ps in
      let qs = values source first.0.single in
      let second = single_loop target source false first.0 qs in
      ground (
        arith,
        h,
        (single_loop-Extends target source true t ps).has p,
        (single_loop-Extends target source false first.0 qs).has p,
        inserts_from-single_loop target source true t ps p,
        inserts_from-single_loop target source false first.0 qs p,
        inserts_from-append source first.1 second.1 p,
      )

  multis-inserts :
      let m = merge_contacts rdf_type t target source in
      (m.multis
        ≡ multi_loop rdf_type source true (to_set (values source t.multi_with_graph))
          ++ multi_loop rdf_type source false (to_set (values source t.multi)))
  unfolding merge_contacts
  multis-inserts =
      let ps = values source t.single_with_graph in
      let first = single_loop target source true t ps in
      let qs = values source first.0.single in
      ground (
        arith,
        single_loop-multi target source true t ps,
        single_loop-multi target source false first.0 qs,
      )

  -- A merge leaves nothing behind. It copies from a source, other than the target, each predicate
  -- with one value that the target does not have, and each predicate with more values but the type.
  pub merge_contacts_complete :
      same_text target source ≡ false
      → let m = merge_contacts rdf_type t target source in
        All
          (λ p. (has_single t target p || inserts_from source m.singles p) ≡ true)
          (values source t.single_with_graph ++ values source t.single)
        × All
            (λ p. (same_text p rdf_type || inserts_from source m.multis p) ≡ true)
            (values source t.multi_with_graph ++ values source t.multi)
  merge_contacts_complete e =
      let m = merge_contacts rdf_type t target source in
      let graphed = to_set (values source t.multi_with_graph) in
      let plain = to_set (values source t.multi) in
      let joined = λ (q : Text).
        inserts_from-append source (multi_loop rdf_type source true graphed)
          (multi_loop rdf_type source false plain) q in
      (
        All-implies (has_single m.predicates target)
            (λ p. has_single t target p || inserts_from source m.singles p)
            (values source t.single_with_graph ++ values source t.single) singles-inserts
            (merge_contacts-has_single rdf_type t target source e),
        All-append (λ p. (same_text p rdf_type || inserts_from source m.multis p) ≡ true)
            (values source t.multi_with_graph) (values source t.multi)
            (multi_loop_complete rdf_type source true (inserts_from source m.multis)
              (values source t.multi_with_graph)
              (λ q h. rw multis-inserts (ground (arith, h, joined q))))
            (multi_loop_complete rdf_type source false (inserts_from source m.multis)
              (values source t.multi) (λ q h. rw multis-inserts (ground (arith, h, joined q)))),
      )
