-- ===== src/Fetch/Added.antt =====
-- src/engine/abstractcontactfetchrequest.cpp: the links that are added for one detail.
use qtcontacts_tracker.Base.{
  Bool, true, false, ◌&&◌, ◌||◌, Text, same_text, same_text_iff, List, [], ◌∷◌, ◌++◌, none, some,
  text_eq, lookup, lookup-insert, ◌≡◌, refl, arith, ap, sym, ◌∙◌, Bool-cases, Option-cases, inl,
  inr,
}
use qtcontacts_tracker.Fetch.{contains_text, links_at, link_back, link_all}

abbrev pub linked : List (Text × List Text) → Text → Text → Bool
linked details uri target = contains_text (links_at uri details) target

abbrev pub has_detail : List (Text × List Text) → Text → Bool
has_detail details uri = elim (lookup uri details) [ none ↦ false | some links ↦ true ]

contains_text-append :
    (names : List Text) (name other : Text)
    → contains_text (names ++ (name ∷ [])) other ≡ contains_text names other || same_text name other
contains_text-append [] name other = ground arith
contains_text-append (n ∷ names) name other = ground (arith, contains_text-append names name other)

pub same_texts :
    (names : List Text) (a b : Text)
    → same_text a b ≡ true
    → contains_text names a ≡ contains_text names b
same_texts names a b h = ap (contains_text names) ((same_text_iff a b).0 h)

lookup_same :
    (details : List (Text × List Text)) (a b : Text)
    → same_text a b ≡ true
    → lookup b details ≡ lookup a details
lookup_same details a b h = ap (λ (x : Text). lookup x details) (sym ((same_text_iff a b).0 h))

-- After one turn there is one more link, if there is such a detail.
linked-link_back :
    (uri target a b : Text) (details : List (Text × List Text))
    → linked (link_back uri target details) a b
      ≡ linked details a b || (same_text target a && (same_text uri b && has_detail details target))
unfolding link_back
linked-link_back uri target a b details = elim (Option-cases (lookup target details)) [
  | inl n ↦ rw (link_back, n) (ground arith)
  | inr (links, n) ↦ elim (Bool-cases (contains_text links uri)) [
    | inl h ↦
        rw (link_back, n, h)
          (elim (Bool-cases (same_text target a)) [
            | inl t ↦
                ground (arith, n, h, t, lookup_same details target a t, same_texts links uri b)
            | inr t ↦ ground (arith, t)
          ])
    | inr h ↦
        rw (link_back, n, h)
          (elim (Bool-cases (same_text target a)) [
            | inl t ↦ ground (
              arith,
              n,
              t,
              lookup_same details target a t,
              contains_text-append links uri b,
              lookup-insert target a (links ++ (uri ∷ [])) details,
            )
            | inr t ↦ ground (arith, t, lookup-insert target a (links ++ (uri ∷ [])) details)
          ])
  ]
]

has_detail-link_back :
    (uri target a : Text) (details : List (Text × List Text))
    → has_detail (link_back uri target details) a ≡ has_detail details a
unfolding link_back
has_detail-link_back uri target a details = elim (Option-cases (lookup target details)) [
  | inl n ↦ rw (link_back, n) refl
  | inr (links, n) ↦ elim (Bool-cases (contains_text links uri)) [
    | inl h ↦ rw (link_back, n, h) refl
    | inr h ↦
        rw (link_back, n, h)
          (elim (Bool-cases (same_text target a)) [
            | inl t ↦ ground (
              arith,
              n,
              t,
              lookup_same details target a t,
              lookup-insert target a (links ++ (uri ∷ [])) details,
            )
            | inr t ↦ ground (arith, t, lookup-insert target a (links ++ (uri ∷ [])) details)
          ])
  ]
]

pub linked-link_all :
    (uri a b : Text) (targets : List Text) (details : List (Text × List Text))
    → linked (link_all uri targets details) a b
      ≡ linked details a b || (contains_text targets a && (same_text uri b && has_detail details a))
unfolding link_all
linked-link_all uri a b [] details = ground arith
linked-link_all uri a b (target ∷ targets) details =
    let ih = linked-link_all uri a b targets (link_back uri target details) in
    elim (Bool-cases (same_text target a)) [
      | inl t ↦ ground (
        arith,
        t,
        ih,
        linked-link_back uri target a b details,
        has_detail-link_back uri target a details,
        lookup_same details target a t,
      )
      | inr t ↦ ground (
        arith,
        t,
        ih,
        linked-link_back uri target a b details,
        has_detail-link_back uri target a details,
      )
    ]

pub has_detail-link_all :
    (uri a : Text) (targets : List Text) (details : List (Text × List Text))
    → has_detail (link_all uri targets details) a ≡ has_detail details a
unfolding link_all
has_detail-link_all uri a [] details = refl
has_detail-link_all uri a (target ∷ targets) details =
    has_detail-link_all uri a targets (link_back uri target details)
    ∙ has_detail-link_back uri target a details
