-- ===== src/Update/Chain/Walked.antt =====
-- src/engine/contactsaverequest.cpp: what the object cache has after a chain was followed.
use qtcontacts_tracker.Base.{
  ℕ, true, false, Text, List, [], ◌∷◌, ◌++◌, none, some, text_eq, list_beq, list_beq_iff, lookup,
  insert, All, map, lookup-insert, lookup-insert_self, ◌≡◌, ◌≢◌, refl, sym, ap, ◌∙◌, arith, inl,
  inr, Bool-cases, Option-cases,
}
use mathlib.Core.List.{append_assoc}
use qtcontacts_tracker.Update.{Variant, Value}
use qtcontacts_tracker.Update.Chain.{
  Property, Field, Detail, chain_eq, Walk, link, insert_pattern, make_object, find_object,
  next_subject_iri, walk_chain,
}
use qtcontacts_tracker.Update.Chain.Path.{find_object-pending}

append_cancel {ℓ} : {A : Type ℓ} (b : List A) {ds es : List A} → b ++ ds ≡ b ++ es → ds ≡ es
append_cancel [] h = h
append_cancel (c ∷ cs) h = append_cancel cs (cc h)

-- A longer chain is another key.
longer :
    (chain : List Text) (p q : Text) (qs : List Text)
    → (chain ++ (p ∷ [])) ≢ (chain ++ (p ∷ q ∷ qs))
longer chain p q qs h = cc (append_cancel chain h)

insert-other :
    (c k : List Text) (v : Value) (m : List (List Text × Value))
    → c ≢ k
    → lookup k (insert c v m) ≡ lookup k m
insert-other c k v m other = lookup-insert c k v m ∙ elim (Bool-cases (list_beq text_eq c k)) [
  | inl e ↦ absurd (other ((list_beq_iff text_eq c k).0 e))
  | inr e ↦ rw e refl
]

abbrev pub iris : List Property → List Text
iris ps = map (λ p. p.iri) ps

-- No property of the chain is read-only.
abbrev pub AreWritable : List Property → Type 0
AreWritable ps = All (λ p. p.is_read_only ≡ false) ps

module _ (number : ℕ → Text) (cubi_value : Variant → Value)
    (make_resource_iri : Property → Variant → Text) (detail : Detail) (field : Field)
    (value : Variant) (types : List (List Text × Text)) where
  abbrev found : Property → List Property → Walk → Value × Walk
  found p rest w = find_object number cubi_value make_resource_iri detail field value types p rest w

  abbrev pub walked : List Property → Walk → Walk
  walked ps w = walk_chain number cubi_value make_resource_iri detail field value types true ps w

  found-chain :
      (p : Property) (rest : List Property) (w : Walk)
      → (found p rest w).1.predicate_chain ≡ w.predicate_chain ++ (p.iri ∷ [])
  unfolding find_object
  found-chain p rest w = ground arith

  found-cached :
      (p : Property) (rest : List Property) (w : Walk) (v : Value)
      → lookup (w.predicate_chain ++ (p.iri ∷ [])) w.object_cache ≡ some v
      → ((found p rest w).0 ≡ v)
        × ((found p rest w).1.literal_value_pending ≡ w.literal_value_pending)
  unfolding find_object
  found-cached p rest w v h = rw (h, find_object) (refl, refl)

  found-last :
      (p : Property) (w : Walk)
      → field.is_without_mapping ≡ false
      → lookup (w.predicate_chain ++ (p.iri ∷ [])) w.object_cache ≡ none
      → (found p [] w).1.object_cache
        ≡ insert (w.predicate_chain ++ (p.iri ∷ [])) (cubi_value value) w.object_cache
  unfolding find_object make_object next_subject_iri
  found-last p w mapped h = rw (h, find_object, mapped) refl

  -- Another key keeps what the cache says of it.
  found-other :
      (p : Property) (rest : List Property) (w : Walk) (key : List Text)
      → (w.predicate_chain ++ (p.iri ∷ [])) ≢ key
      → lookup key (found p rest w).1.object_cache ≡ lookup key w.object_cache
  unfolding find_object
  found-other p rest w key other =
      let chain = w.predicate_chain ++ (p.iri ∷ []) in
      elim (Option-cases (lookup chain w.object_cache)) [
        | inr (o, e) ↦ rw (e, find_object) refl
        | inl n ↦
            let object =
              (make_object number cubi_value make_resource_iri detail field value rest
                w.builder).0 in
            rw (n, find_object) (insert-other chain key object w.object_cache other)
      ]

  abbrev linked : Property → List Property → Walk → Walk
  linked p rest w =
      let (object, w1) = found p rest w in
      record w1 { builder = insert_pattern (link p w.axis object) w1.builder; axis = object }

  -- A chain that the cache knows: the walk ends at the known object, and the value is still pending.
  pub walked-cached :
      (p : Property) (rest : List Property) (w : Walk) (v : Value)
      → AreWritable (p ∷ rest)
      → lookup (w.predicate_chain ++ iris (p ∷ rest)) w.object_cache ≡ some v
      → ((walked (p ∷ rest) w).axis ≡ v)
        × ((walked (p ∷ rest) w).literal_value_pending ≡ w.literal_value_pending)
  unfolding walk_chain
  walked-cached p [] w v (writable, _) h = rw (writable, walk_chain) (found-cached p [] w v h)
  walked-cached p (q ∷ qs) w v (writable, more) h =
      let next = linked p (q ∷ qs) w in
      let chain = found-chain p (q ∷ qs) w in
      let full = append_assoc w.predicate_chain (p.iri ∷ []) (iris (q ∷ qs)) in
      let known : lookup (next.predicate_chain ++ iris (q ∷ qs)) next.object_cache ≡ some v =
        rw (chain, full)
          (found-other p (q ∷ qs) w (w.predicate_chain ++ iris (p ∷ q ∷ qs))
              (longer w.predicate_chain p.iri q.iri (iris qs))
            ∙ h) in
      let (axis, pending) = walked-cached q qs next v more known in
      rw (writable, walk_chain)
        (
          axis,
          pending
              ∙ find_object-pending number cubi_value make_resource_iri detail field value types p q
                  qs w,
        )

  -- A chain that the cache does not know: the object that it gets is the value.
  pub walked-new :
      (p : Property) (rest : List Property) (w : Walk)
      → field.is_without_mapping ≡ false
      → AreWritable (p ∷ rest)
      → lookup (w.predicate_chain ++ iris (p ∷ rest)) w.object_cache ≡ none
      → lookup (w.predicate_chain ++ iris (p ∷ rest)) (walked (p ∷ rest) w).object_cache
        ≡ some (cubi_value value)
  unfolding walk_chain
  walked-new p [] w mapped (writable, _) h =
      rw (writable, walk_chain)
        (ap (λ c. lookup (w.predicate_chain ++ (p.iri ∷ [])) c) (found-last p w mapped h)
          ∙ lookup-insert_self (w.predicate_chain ++ (p.iri ∷ [])) (cubi_value value)
              w.object_cache)
  walked-new p (q ∷ qs) w mapped (writable, more) h =
      let next = linked p (q ∷ qs) w in
      let chain = found-chain p (q ∷ qs) w in
      let full = append_assoc w.predicate_chain (p.iri ∷ []) (iris (q ∷ qs)) in
      let unknown : lookup (next.predicate_chain ++ iris (q ∷ qs)) next.object_cache ≡ none =
        rw (chain, full)
          (found-other p (q ∷ qs) w (w.predicate_chain ++ iris (p ∷ q ∷ qs))
              (longer w.predicate_chain p.iri q.iri (iris qs))
            ∙ h) in
      let known = walked-new q qs next mapped more unknown in
      rw (writable, walk_chain)
        (ap (λ k. lookup k (walked (q ∷ qs) next).object_cache)
            (sym (ap (λ c. c ++ iris (q ∷ qs)) chain ∙ full))
          ∙ known)
