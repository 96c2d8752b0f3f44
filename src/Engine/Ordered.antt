-- ===== src/Engine/Ordered.antt =====
-- src/engine/engine.cpp: whether the order of avatars is one.
use qtcontacts_tracker.Base.{
  ℕ, ◌≤◌, ◌<◌, Bool, true, false, not, ◌==◌, ==_iff, if◌then◌else◌, Text, same_text, same_text_iff,
  [], ◌∷◌, none, some, ◌≡◌, ◌≢◌, refl, arith, Bool-cases, Option-cases, inl, inr,
}
use qtcontacts_tracker.Engine.Avatar.{RankedAvatar, first_of, less_linked, less, rank_avatar}

-- A strict order of texts.
pub record IsStrict (less_than : Text → Text → Bool) : Type 0 where
  pub irreflexive : (x : Text) → less_than x x ≡ false
  pub transitive :
      (x y z : Text) → less_than x y ≡ true → less_than y z ≡ true → less_than x z ≡ true

-- Two texts, and what decides if they are the same.
abbrev lexicographic : (Text → Text → Bool) → Text → Text → Bool → Bool
lexicographic less_than x y rest = if not (same_text x y) then less_than x y else rest

lexicographic_transitive :
    (less_than : Text → Text → Bool) (strict : IsStrict less_than) (x y z : Text) (xy yz xz : Bool)
    → (xy ≡ true → yz ≡ true → xz ≡ true)
    → lexicographic less_than x y xy ≡ true
    → lexicographic less_than y z yz ≡ true
    → lexicographic less_than x z xz ≡ true
lexicographic_transitive less_than strict x y z xy yz xz rest h h' =
    let at = λ (u v : Text). same_text_iff u v in
    elim (Bool-cases (same_text x y)) [
      | inl e ↦ elim (Bool-cases (same_text y z)) [
        | inl e' ↦ ground (arith, e, e', h, h', at x y, at y z, at x z, rest)
        | inr e' ↦ ground (arith, e, e', h, h', at x y, at y z, at x z)
      ]
      | inr e ↦ elim (Bool-cases (same_text y z)) [
        | inl e' ↦ ground (arith, e, e', h, h', at x y, at y z, at x z)
        | inr e' ↦
            let l : less_than x y ≡ true = ground (arith, e, h) in
            let l' : less_than y z ≡ true = ground (arith, e', h') in
            ground (
              arith,
              strict.transitive x y z l l',
              strict.irreflexive x,
              at x z,
              l,
              l',
              strict.transitive z x y,
            )
      ]
    ]

module _ (less_text : Text → Text → Bool) (less_url : Text → Text → Bool)
    (texts : IsStrict less_text) (urls : IsStrict less_url) where
  less_linked_transitive :
      (p q r : Text) (a b c : RankedAvatar)
      → less_linked less_text less_url p q a b ≡ true
      → less_linked less_text less_url q r b c ≡ true
      → less_linked less_text less_url p r a c ≡ true
  unfolding less_linked
  less_linked_transitive p q r a b c h h' =
      let rest = λ (u v : RankedAvatar).
        lexicographic less_text u.sub_type v.sub_type (less_url u.image_url v.image_url) in
      lexicographic_transitive less_text texts p q r (rest a b) (rest b c) (rest a c)
        (λ e e'.
          lexicographic_transitive less_text texts a.sub_type b.sub_type c.sub_type
            (less_url a.image_url b.image_url) (less_url b.image_url c.image_url)
            (less_url a.image_url c.image_url) (urls.transitive a.image_url b.image_url c.image_url)
            e e')
        h h'

  same_rank_transitive :
      (a b c : RankedAvatar)
      → a.availability ≡ b.availability
      → b.availability ≡ c.availability
      → less less_text less_url a b ≡ some true
      → less less_text less_url b c ≡ some true
      → less less_text less_url a c ≡ some true
  unfolding less
  same_rank_transitive a b c e e' h h' = elim (Option-cases (first_of a.linked_detail_uris)) [
    | inl n ↦ absurd (ground (arith, h, e, n, ==_iff a.availability b.availability))
    | inr (p, n) ↦ elim (Option-cases (first_of b.linked_detail_uris)) [
      | inl n' ↦ absurd (ground (arith, h, e, n, n', ==_iff a.availability b.availability))
      | inr (q, n') ↦ elim (Option-cases (first_of c.linked_detail_uris)) [
        | inl n'' ↦ absurd (ground (arith, h', e', n', n'', ==_iff b.availability c.availability))
        | inr (r, n'') ↦
            let l : less_linked less_text less_url p q a b ≡ true = ground (arith, h, e, n, n') in
            let l' : less_linked less_text less_url q r b c ≡ true =
              ground (arith, h', e', n', n'') in
            ground (arith, e, e', n, n'', less_linked_transitive p q r a b c l l')
      ]
    ]
  ]

  less-rank :
      (a b : RankedAvatar)
      → less less_text less_url a b ≡ some true
      → b.availability ≤ a.availability
  unfolding less
  less-rank a b h = ground (arith, h)

  higher-less :
      (a b : RankedAvatar)
      → b.availability < a.availability
      → less less_text less_url a b ≡ some true
  unfolding less
  higher-less a b l = ground (arith, l)

  less_transitive :
      (a b c : RankedAvatar)
      → less less_text less_url a b ≡ some true
      → less less_text less_url b c ≡ some true
      → less less_text less_url a c ≡ some true
  less_transitive a b c h h' =
      let l = less-rank a b h in
      let l' = less-rank b c h' in
      elim (Bool-cases (a.availability == b.availability)) [
        | inr n ↦ higher-less a c (ground (arith, n, l, l'))
        | inl n ↦ elim (Bool-cases (b.availability == c.availability)) [
          | inr n' ↦ higher-less a c (ground (arith, n', l, l'))
          | inl n' ↦
              same_rank_transitive a b c ((==_iff a.availability b.availability).0 n)
                ((==_iff b.availability c.availability).0 n') h h'
        ]
      ]

  less_irreflexive : (a : RankedAvatar) → less less_text less_url a a ≢ some true
  unfolding less less_linked
  less_irreflexive a h = elim (Option-cases (first_of a.linked_detail_uris)) [
    | inl n ↦ ground (arith, h, n)
    | inr (p, n) ↦ ground (
      arith,
      h,
      n,
      urls.irreflexive a.image_url,
      same_text_iff p p,
      same_text_iff a.sub_type a.sub_type,
    )
  ]

  -- The order of avatars is transitive where it is defined, as sorting needs it, and no avatar
  -- comes before itself; the condition: the orders of texts and of URLs are strict.
  pub less_lem :
      (a b c : RankedAvatar)
      → less less_text less_url a b ≡ some true
      → less less_text less_url b c ≡ some true
      → (less less_text less_url a c ≡ some true) × (less less_text less_url a a ≢ some true)
  less_lem a b c h h' = (less_transitive a b c h h', less_irreflexive a)

-- An online avatar that is linked to no account still becomes an avatar, and comparing that with
-- any avatar of the same availability, on either side, reads the first one of no URIs.
pub less-rank_avatar :
    (less_text less_url : Text → Text → Bool) (rank : Text → ℕ) (unknown_rank : ℕ)
    (account_of : Text → Text) (sub_type url : Text) (b : RankedAvatar)
    → b.availability ≡ unknown_rank
    → (a : RankedAvatar) × (rank_avatar rank unknown_rank account_of [] sub_type url ≡ a ∷ [])
      × (less less_text less_url a b ≡ none)
      × (less less_text less_url b a ≡ none)
unfolding rank_avatar less
less-rank_avatar less_text less_url rank unknown_rank account_of sub_type url b e =
    let a : RankedAvatar = record {
      linked_detail_uris = [];
      sub_type = sub_type;
      image_url = url;
      availability = unknown_rank;
    } in
    (
      a,
      refl,
      ground (arith, e, ==_iff unknown_rank b.availability),
      elim (Option-cases (first_of b.linked_detail_uris)) [
        | inl n ↦ ground (arith, e, n, ==_iff b.availability unknown_rank)
        | inr (p, n) ↦ ground (arith, e, n, ==_iff b.availability unknown_rank)
      ],
    )
