-- ===== src/Merge/Once.antt =====
-- src/engine/contactcopyandremoverequest.cpp: insertions that are made once.
use qtcontacts_tracker.Base.{
  Bool, true, false, ◌||◌, Text, List, [], ◌∷◌, ◌++◌, All, All-append, same_text, same_text_iff,
  ◌≡◌, arith, refl,
}
use qtcontacts_tracker.Merge.{Predicates, Insertion, has_single}

-- One of the insertions is of the predicate.
abbrev pub inserts : List Insertion → Text → Bool
inserts [] p = false
inserts (i ∷ is) p = same_text i.predicate p || inserts is p

-- No predicate is inserted twice.
abbrev pub Once : List Insertion → Type 0
Once [] = Unit
Once (i ∷ is) = (inserts is i.predicate ≡ false) × Once is

-- The target lacks what is inserted, and has it afterwards, as well as what it had.
pub record Extends (target : Text) (t : Predicates) (is : List Insertion) (t' : Predicates)
    : Type 0 where
  pub once : Once is
  pub lacking : All (λ i. has_single t target i.predicate ≡ false) is
  pub has : (p : Text) → has_single t' target p ≡ (has_single t target p || inserts is p)

inserts-append :
    (is js : List Insertion) (p : Text) → inserts (is ++ js) p ≡ (inserts is p || inserts js p)
inserts-append [] js p = refl
inserts-append (i ∷ is) js p = ground (arith, inserts-append is js p)

inserts_self : (i : Insertion) (is : List Insertion) → inserts (i ∷ is) i.predicate ≡ true
inserts_self i is = ground (arith, same_text_iff i.predicate i.predicate)

-- What an earlier table lacks and the later one has not got by the first insertions.
narrow :
    (P Q : Text → Bool) (is : List Insertion) (js : List Insertion)
    → ((p : Text) → Q p ≡ (P p || inserts is p))
    → All (λ i. Q i.predicate ≡ false) js
    → All (λ i. P i.predicate ≡ false) js
narrow P Q is [] h a = tt
narrow P Q is (j ∷ js) h a = ground (arith, h j.predicate, narrow P Q is js h a.1)

-- Two runs of insertions, of which the second lacks what the first inserts.
apart :
    (i : Insertion) (Q : Text → Bool) (js : List Insertion)
    → Q i.predicate ≡ true
    → All (λ j. Q j.predicate ≡ false) js
    → inserts js i.predicate ≡ false
apart i Q [] h a = refl
apart i Q (j ∷ js) h a = ground (arith, same_text_iff j.predicate i.predicate, apart i Q js h a.1)

Once-append :
    (Q : Text → Bool) (is js : List Insertion)
    → Once is
    → Once js
    → All (λ i. Q i.predicate ≡ true) is
    → All (λ j. Q j.predicate ≡ false) js
    → Once (is ++ js)
Once-append Q [] js o o' h a = o'
Once-append Q (i ∷ is) js o o' h a = (
  ground (arith, inserts-append is js i.predicate, o.0, apart i Q js h.0 a),
  Once-append Q is js o.1 o' h.1 a,
)

covers :
    (Q : Text → Bool) (is : List Insertion)
    → ((p : Text) → inserts is p ≡ true → Q p ≡ true)
    → All (λ i. Q i.predicate ≡ true) is
covers Q [] h = tt
covers Q (i ∷ is) h =
    (h i.predicate (inserts_self i is), covers Q is (λ p e. h p (ground (arith, e))))

pub Extends-append :
    {target : Text} {t t' t'' : Predicates} {is js : List Insertion}
    → Extends target t is t'
    → Extends target t' js t''
    → Extends target t (is ++ js) t''
Extends-append {target} {t} {t'} {t''} {is} {js} x y = record {
  once =
      Once-append (has_single t' target) is js x.once y.once
        (covers (has_single t' target) is (λ p e. ground (arith, x.has p, e))) y.lacking;
  lacking =
      All-append (λ i. has_single t target i.predicate ≡ false) is js x.lacking
        (narrow (has_single t target) (has_single t' target) is js x.has y.lacking);
  has = λ p. ground (arith, x.has p, y.has p, inserts-append is js p);
}

pub noted-Extends :
    (target source p : Text) (graphed : Bool) (t : Predicates)
    → has_single t target p ≡ false
    → Extends target t
        (record { with_graph = graphed; predicate = p; source = source } ∷ [])
        (record t { single = (target, p) ∷ t.single })
noted-Extends target source p graphed t lacks = record {
  once = (refl, tt);
  lacking = (lacks, tt);
  has = λ q. ground (arith, same_text_iff target target);
}

pub same-Extends : (target : Text) (t : Predicates) → Extends target t [] t
same-Extends target t = record { once = tt; lacking = tt; has = λ p. ground arith }
