-- ===== src/Subject/RoundTrip.antt =====
-- src/dao/subject.cpp: IRIs that are made and parsed.
use qtcontacts_tracker.Base.{
  ℕ, zero, suc, Bool, true, false, not, ◌&&◌, ◌==◌, ==_iff, Text, List, [], ◌∷◌, ◌++◌, Option, none,
  some, is_empty, length, take, drop, ◌≡◌, refl, arith, ap, ◌∙◌, Bool-cases, Option-cases, inl, inr,
  ◌⊎◌,
}
use qtcontacts_tracker.Subject.{
  Scheme, no_scheme, anonymous, phone_number, email_address, telepathy, presence, Value,
  starts_with, index_of, exclamation_mark, starts_with_slash, parse_text_iri, mailto_prefix,
  telepathy_prefix, presence_prefix, make_email_address_iri, make_telepathy_iri, make_presence_iri,
  make_telepathy_connection_iri, make_presence_connection_iri, parse_iri, make_iri,
}

abbrev pub text_value : Text → Value
text_value t = record { to_string = t; to_string_list = t ∷ [] }

starts_with-append : (prefix v : Text) → starts_with (prefix ++ v) prefix ≡ true
unfolding starts_with
starts_with-append [] v = refl
starts_with-append (p ∷ prefix) v = ground (arith, starts_with-append prefix v)

drop-append : (prefix v : Text) → drop (length prefix) (prefix ++ v) ≡ v
drop-append [] v = refl
drop-append (p ∷ prefix) v = drop-append prefix v

append-drop :
    (iri prefix : Text) → starts_with iri prefix ≡ true → prefix ++ drop (length prefix) iri ≡ iri
unfolding starts_with
append-drop iri [] h = refl
append-drop [] (p ∷ prefix) h = absurd (ground (arith, h))
append-drop (c ∷ iri) (p ∷ prefix) h = ground (arith, h, ==_iff c p, append-drop iri prefix)

parse_text_iri-append :
    (prefix v : Text) → parse_text_iri prefix (prefix ++ v) ≡ (v, not (is_empty v))
unfolding parse_text_iri
parse_text_iri-append prefix v = rw (starts_with-append prefix v, drop-append prefix v) refl

parse_text_iri-inverse :
    (prefix iri v : Text) → parse_text_iri prefix iri ≡ (v, true) → prefix ++ v ≡ iri
unfolding parse_text_iri
parse_text_iri-inverse prefix iri v h = elim (Bool-cases (starts_with iri prefix)) [
  | inl s ↦ ground (arith, h, s, append-drop iri prefix s)
  | inr s ↦ absurd (ground (arith, h, s))
]

cut_lem : (c : ℕ) (v : Text) (i : ℕ) → index_of c v ≡ some i → take i v ++ (c ∷ drop (suc i) v) ≡ v
unfolding index_of
cut_lem c [] i h = absurd (ground (arith, h))
cut_lem c (d ∷ v) zero h = elim (Bool-cases (d == c)) [
  | inl e ↦ ground (arith, e, ==_iff d c)
  | inr e ↦ elim (Option-cases (index_of c v)) [
    | inl n ↦ absurd (ground (arith, h, e, n))
    | inr (j, n) ↦ absurd (ground (arith, h, e, n))
  ]
]
cut_lem c (d ∷ v) (suc i) h = ap (◌∷◌ d) (cut_lem c v i (tail (Option-cases (index_of c v))))
  where
    tail : (index_of c v ≡ none) ⊎ ((j : ℕ) × (index_of c v ≡ some j)) → index_of c v ≡ some i
    tail (inl n) = absurd (ground (arith, h, n))
    tail (inr (j, n)) = ground (arith, h, n)

index_of-append :
    (c : ℕ) (a b : Text) → index_of c a ≡ none → index_of c (a ++ (c ∷ b)) ≡ some (length a)
unfolding index_of
index_of-append c [] b h = ground (arith, ==_iff c c)
index_of-append c (d ∷ a) b h = ground (arith, h, index_of-append c a b)

take-append : (a b : Text) → take (length a) (a ++ b) ≡ a
take-append [] b = refl
take-append (x ∷ a) b = ap (◌∷◌ x) (take-append a b)

drop-append_suc : (a b : Text) (c : ℕ) → drop (suc (length a)) (a ++ (c ∷ b)) ≡ b
drop-append_suc [] b c = refl
drop-append_suc (x ∷ a) b c = drop-append_suc a b c

-- The part before an exclamation mark starts as the whole does.
slash-take :
    (v : Text) (i : ℕ)
    → index_of exclamation_mark v ≡ some i
    → starts_with_slash (take i v) ≡ starts_with_slash v
unfolding index_of
slash-take [] i h = absurd (ground (arith, h))
slash-take (d ∷ v) zero h = elim (Option-cases (index_of exclamation_mark v)) [
  | inl n ↦ ground (arith, h, n)
  | inr (j, n) ↦ ground (arith, h, n)
]
slash-take (d ∷ v) (suc i) h = refl

-- What comes after the first exclamation mark, if there is one.
abbrev pub address_of : Text → Option Text
address_of v = elim (index_of exclamation_mark v) [ none ↦ none | some i ↦ some (drop (suc i) v) ]

-- The values that an IRI can stand for: an address, and connections with an account. A connection
-- has no empty address, and a presence always has one.
abbrev pub well_formed : Scheme → Text → Bool
well_formed email_address v = not (is_empty v)
well_formed telepathy v =
    starts_with_slash v
    && elim (address_of v) [ none ↦ true | some address ↦ not (is_empty address) ]
well_formed presence v =
    starts_with_slash v
    && elim (address_of v) [ none ↦ false | some address ↦ not (is_empty address) ]
well_formed _ v = false

make_telepathy_lem :
    (v : Text)
    → well_formed telepathy v ≡ true
    → make_telepathy_connection_iri v ≡ telepathy_prefix ++ v
unfolding make_telepathy_connection_iri make_telepathy_iri
make_telepathy_lem v w = elim (Option-cases (index_of exclamation_mark v)) [
  | inl n ↦ rw (make_telepathy_connection_iri, n) (ground (arith, w, n))
  | inr (i, n) ↦
      rw (make_telepathy_connection_iri, n)
        (ground (arith, w, n, slash-take v i n, cut_lem exclamation_mark v i n))
]

make_presence_lem :
    (v : Text)
    → well_formed presence v ≡ true
    → make_presence_connection_iri v ≡ presence_prefix ++ v
unfolding make_presence_connection_iri make_presence_iri
make_presence_lem v w = elim (Option-cases (index_of exclamation_mark v)) [
  | inl n ↦ absurd (ground (arith, w, n))
  | inr (i, n) ↦
      rw (make_presence_connection_iri, n)
        (ground (arith, w, n, slash-take v i n, cut_lem exclamation_mark v i n))
]

not_empty : (v : Text) → starts_with_slash v ≡ true → is_empty v ≡ false
not_empty [] h = absurd (ground (arith, h))
not_empty (c ∷ v) h = refl

module _ (uuid_of : Text → Text) (phone_number_iri : Text → List Text → Text) where
  -- The IRI that is made of an email address, of an account or a connection, or of a presence, is
  -- parsed back to it, where the value is one that the scheme can stand for: not empty, and for the
  -- last two with a slash first, and something after the first exclamation mark, which a presence
  -- must have.
  pub parse_iri-make_iri :
      (scheme : Scheme) (v : Text)
      → well_formed scheme v ≡ true
      → parse_iri uuid_of scheme (make_iri uuid_of phone_number_iri scheme (text_value v ∷ []))
        ≡ (v, true)
  unfolding parse_iri make_iri make_email_address_iri
  parse_iri-make_iri email_address v w = ground (arith, w, parse_text_iri-append mailto_prefix v)
  parse_iri-make_iri telepathy v w =
      rw (make_telepathy_lem v w)
        (ground (arith, w, not_empty v, parse_text_iri-append telepathy_prefix v))
  parse_iri-make_iri presence v w =
      rw (make_presence_lem v w)
        (ground (arith, w, not_empty v, parse_text_iri-append presence_prefix v))
  parse_iri-make_iri no_scheme v w = absurd (ground (arith, w))
  parse_iri-make_iri anonymous v w = absurd (ground (arith, w))
  parse_iri-make_iri phone_number v w = absurd (ground (arith, w))

  -- Conversely, the IRI that is made of a parsed value is the one that was parsed, if the value is
  -- one that the scheme can stand for.
  pub make_iri-parse_iri :
      (scheme : Scheme) (iri v : Text)
      → well_formed scheme v ≡ true
      → parse_iri uuid_of scheme iri ≡ (v, true)
      → make_iri uuid_of phone_number_iri scheme (text_value v ∷ []) ≡ iri
  unfolding parse_iri make_iri make_email_address_iri
  make_iri-parse_iri email_address iri v w h = parse_text_iri-inverse mailto_prefix iri v h
  make_iri-parse_iri telepathy iri v w h =
      make_telepathy_lem v w ∙ parse_text_iri-inverse telepathy_prefix iri v h
  make_iri-parse_iri presence iri v w h =
      make_presence_lem v w ∙ parse_text_iri-inverse presence_prefix iri v h
  make_iri-parse_iri no_scheme iri v w h = absurd (ground (arith, w))
  make_iri-parse_iri anonymous iri v w h = absurd (ground (arith, w))
  make_iri-parse_iri phone_number iri v w h = absurd (ground (arith, w))

  -- An account and an address give the same IRI as the connection that joins them by an exclamation
  -- mark, if the account has none itself, whatever the two are.
  pub make_iri-joined :
      (account address : Text)
      → index_of exclamation_mark account ≡ none
      → let both = text_value account ∷ text_value address ∷ [] in
        let joined = text_value (account ++ (exclamation_mark ∷ address)) ∷ [] in
        (make_iri uuid_of phone_number_iri telepathy both
          ≡ make_iri uuid_of phone_number_iri telepathy joined)
        × (make_iri uuid_of phone_number_iri presence both
            ≡ make_iri uuid_of phone_number_iri presence joined)
  unfolding make_iri make_telepathy_connection_iri make_presence_connection_iri
  make_iri-joined account address h =
      let e = index_of-append exclamation_mark account address h in
      let e' = take-append account (exclamation_mark ∷ address) in
      let e'' = drop-append_suc account address exclamation_mark in
      (ground (arith, e, e', e''), ground (arith, e, e', e''))
