-- ===== src/Fetch/Links.antt =====
-- src/engine/abstractcontactfetchrequest.cpp: `updateDetailLinks` makes links mutual.
use qtcontacts_tracker.Base.{
  Bool, true, ◌&&◌, ◌||◌, Text, same_text, same_text_iff, List, [], ◌∷◌, text_eq, lookup, ◌≡◌, refl,
  arith, ap, ◌∙◌, Bool-cases, Option-cases, inl, inr,
}
use mathlib.Core.Path.{subst}
use qtcontacts_tracker.Fetch.{
  contains_text, links_at, link_all, link_details, keys, update_detail_links,
}
use qtcontacts_tracker.Fetch.Added.{
  linked, has_detail, same_texts, linked-link_all, has_detail-link_all,
}

-- The links of a detail are answered by the details that they lead to.
abbrev Answered : List (Text × List Text) → Text → Type 0
Answered details uri =
    (target : Text)
    → linked details uri target ≡ true
    → has_detail details target ≡ true
    → linked details target uri ≡ true

abbrev after : Text → List (Text × List Text) → List (Text × List Text)
after uri details = link_all uri (links_at uri details) details

after-Answered : (uri : Text) (details : List (Text × List Text)) → Answered (after uri details) uri
after-Answered uri details target h t = ground (
  arith,
  h,
  t,
  linked-link_all uri uri target (links_at uri details) details,
  linked-link_all uri target uri (links_at uri details) details,
  has_detail-link_all uri target (links_at uri details) details,
  same_text_iff uri uri,
  same_text_iff uri target,
  same_texts (links_at uri details) uri target,
)

after-keeps :
    (uri other : Text) (details : List (Text × List Text))
    → Answered details other
    → Answered (after uri details) other
after-keeps uri other details answered target h t =
    let has = has_detail-link_all uri target (links_at uri details) details in
    let new = linked-link_all uri other target (links_at uri details) details in
    let back = linked-link_all uri target other (links_at uri details) details in
    elim (Bool-cases (linked details other target)) [
      | inl l ↦ ground (arith, back, answered target l (ground (arith, has, t)))
      | inr l ↦
          let same : same_text uri target ≡ true = ground (arith, l, new, h) in
          ground (
            arith,
            l,
            new,
            h,
            back,
            ap (λ (x : Text). linked details x other) ((same_text_iff uri target).0 same),
          )
    ]

linked-link_details :
    (uris : List Text) (details : List (Text × List Text)) (a b : Text)
    → (has_detail (link_details uris details) a ≡ has_detail details a)
      × (linked details a b ≡ true → linked (link_details uris details) a b ≡ true)
unfolding link_details
linked-link_details [] details a b = (refl, λ h. h)
linked-link_details (uri ∷ uris) details a b =
    let (same, more) = linked-link_details uris (after uri details) a b in
    (
      same ∙ has_detail-link_all uri a (links_at uri details) details,
      λ h. more (ground (arith, h, linked-link_all uri a b (links_at uri details) details)),
    )

link_details-keeps :
    (uris : List Text) (details : List (Text × List Text)) (other : Text)
    → Answered details other
    → Answered (link_details uris details) other
unfolding link_details
link_details-keeps [] details other answered = answered
link_details-keeps (uri ∷ uris) details other answered =
    link_details-keeps uris (after uri details) other (after-keeps uri other details answered)

link_details-Answered :
    (uris : List Text) (details : List (Text × List Text)) (uri : Text)
    → contains_text uris uri ≡ true
    → Answered (link_details uris details) uri
unfolding link_details
link_details-Answered [] details uri h = absurd (ground (arith, h))
link_details-Answered (u ∷ uris) details uri h = elim (Bool-cases (same_text u uri)) [
  | inl e ↦
      link_details-keeps uris (after u details) uri
        (subst (Answered (after u details)) ((same_text_iff u uri).0 e) (after-Answered u details))
  | inr e ↦ link_details-Answered uris (after u details) uri (ground (arith, e, h))
]

has_detail-keys :
    (details : List (Text × List Text)) (uri : Text)
    → has_detail details uri ≡ true
    → contains_text (keys details) uri ≡ true
unfolding lookup
has_detail-keys [] uri h = absurd (ground (arith, h))
has_detail-keys ((k, links) ∷ details) uri h = ground (arith, h, has_detail-keys details uri)

linked-has_detail :
    (details : List (Text × List Text)) (uri target : Text)
    → linked details uri target ≡ true
    → has_detail details uri ≡ true
linked-has_detail details uri target h = elim (Option-cases (lookup uri details)) [
  | inl n ↦ absurd (ground (arith, h, n))
  | inr (links, n) ↦ ground (arith, n)
]

abbrev mutual_link : List (Text × List Text) → Text → Text → Bool
mutual_link details a b = linked details a b || (linked details b a && has_detail details a)

abbrev Within : List (Text × List Text) → List (Text × List Text) → Type 0
Within details details' =
    (a b : Text)
    → (has_detail details' a ≡ has_detail details a)
      × (linked details' a b ≡ true → mutual_link details a b ≡ true)

after-Within :
    (details details' : List (Text × List Text)) (uri : Text)
    → Within details details'
    → Within details (after uri details')
after-Within details details' uri w a b =
    let (same, more) = w a b in
    let new = linked-link_all uri a b (links_at uri details') details' in
    (
      has_detail-link_all uri a (links_at uri details') details' ∙ same,
      λ h. elim (Bool-cases (linked details' a b)) [
        | inl l ↦ more l
        | inr l ↦
            let equal : same_text uri b ≡ true = ground (arith, l, new, h) in
            let from : linked details' b a ≡ true = ground (
              arith,
              l,
              new,
              h,
              ap (λ (x : Text). linked details' x a) ((same_text_iff uri b).0 equal),
            ) in
            let has : has_detail details a ≡ true = ground (arith, l, new, h, same) in
            ground (arith, (w b a).1 from, has)
      ],
    )

link_details-Within :
    (uris : List Text) (details details' : List (Text × List Text))
    → Within details details'
    → Within details (link_details uris details')
unfolding link_details
link_details-Within [] details details' w = w
link_details-Within (uri ∷ uris) details details' w =
    link_details-Within uris details (after uri details') (after-Within details details' uri w)

answered_lem :
    (details : List (Text × List Text)) (uri target : Text)
    → linked (update_detail_links details) uri target ≡ true
    → has_detail details target ≡ true
    → linked (update_detail_links details) target uri ≡ true
unfolding update_detail_links
answered_lem details uri target h t =
    let had : has_detail details uri ≡ true = ground (
      arith,
      linked-has_detail (link_details (keys details) details) uri target h,
      (linked-link_details (keys details) details uri target).0,
    ) in
    link_details-Answered (keys details) details uri (has_detail-keys details uri had) target h
      (ground (arith, t, (linked-link_details (keys details) details target uri).0))

-- After `updateDetailLinks` a detail of a contact is linked to another one exactly if it was before,
-- or if that one was linked to it; and no detail comes or goes.
pub update_detail_links_lem :
    (details : List (Text × List Text)) (a b : Text)
    → (linked (update_detail_links details) a b
        ≡ linked details a b || (linked details b a && has_detail details a))
      × (has_detail (update_detail_links details) a ≡ has_detail details a)
unfolding update_detail_links
update_detail_links_lem details a b =
    let uris = keys details in
    let within = link_details-Within uris details details (λ c d. (refl, λ h. ground (arith, h))) in
    let kept = (linked-link_details uris details a b).1 in
    let back = (linked-link_details uris details b a).1 in
    (
      elim (Bool-cases (linked (link_details uris details) a b)) [
        | inl h ↦ ground (arith, h, (within a b).1 h)
        | inr h ↦ elim (Bool-cases (linked details a b)) [
          | inl l ↦ absurd (ground (arith, h, kept l))
          | inr l ↦ elim (Bool-cases (linked details b a && has_detail details a)) [
            | inl l' ↦ absurd (
                ground (
                  arith,
                  h,
                  answered_lem details b a (back (ground (arith, l'))) (ground (arith, l')),
                ))
            | inr l' ↦ ground (arith, h, l, l')
          ]
        ]
      ],
      (within a b).0,
    )
