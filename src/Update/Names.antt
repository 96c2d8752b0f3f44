-- ===== src/Update/Names.antt =====
-- src/engine/contactsaverequest.cpp: the names that `makeUniqueName` makes.
use qtcontacts_tracker.Base.{
  ℕ, zero, suc, ◌+◌, ◌*◌, ◌-◌, ◌/◌, ◌%◌, ◌<◌, Bool, true, false, ◌&&◌, leb, ltb, if◌then◌else◌,
  Text, codes, [], ◌∷◌, ◌++◌, All, is_empty, ◌≡◌, refl, sym, ap, ◌∙◌, arith, inl, inr, Bool-cases,
}
use mathlib.Core.List.{append_assoc}
use qtcontacts_tracker.Update.{Builder, make_unique_name}

abbrev pub is_digit : ℕ → Bool
is_digit c = leb 48 c && leb c 57

-- What Qt documents of `QString::number`: decimal digits, at least one, and different numbers have
-- different ones.
pub record Numbers (number : ℕ → Text) : Type 0 where
  pub digits : (n : ℕ) → All (λ c. is_digit c ≡ true) (number n)
  pub not_empty : (n : ℕ) → is_empty (number n) ≡ false
  pub different : (m n : ℕ) → number m ≡ number n → m ≡ n

-- A text without the digits at its end.
unfoldable pub stem : Text → Text
stem [] = []
stem (c ∷ cs) = let rest = stem cs in if is_empty rest && is_digit c then [] else c ∷ rest

-- A name that does not end in a digit.
abbrev pub IsStem : Text → Type 0
IsStem name = stem name ≡ name

stem-digits : (ds : Text) → All (λ c. is_digit c ≡ true) ds → stem ds ≡ []
unfolding stem
stem-digits [] h = refl
stem-digits (d ∷ ds) (a, b) = rw (stem-digits ds b, a)

stem-append : (b ds : Text) → stem ds ≡ [] → stem (b ++ ds) ≡ stem b
unfolding stem
stem-append [] ds h = h
stem-append (c ∷ cs) ds h = rw (stem-append cs ds h)

append_cancel : (b : Text) {ds es : Text} → b ++ ds ≡ b ++ es → ds ≡ es
append_cancel [] h = h
append_cancel (c ∷ cs) h = append_cancel cs (cc h)

module _ {number : ℕ → Text} (numbers : Numbers number) where
  stem-numbered : (b : Text) (n : ℕ) → IsStem b → stem (b ++ number n) ≡ b
  stem-numbered b n h = stem-append b (number n) (stem-digits (number n) (numbers.digits n)) ∙ h

  -- Names that do not end in a digit are unique: two of them with numbers are the same only if
  -- both the names and the numbers are.
  pub unique_names :
      (b b' : Text) (m n : ℕ)
      → IsStem b
      → IsStem b'
      → b ++ number m ≡ b' ++ number n
      → (b ≡ b') × (m ≡ n)
  unique_names b b' m n h h' e =
      let same = sym (stem-numbered b m h) ∙ ap stem e ∙ stem-numbered b' n h' in
      let e' : b ++ number m ≡ b ++ number n = e ∙ ap (λ x. x ++ number n) (sym same) in
      (same, numbers.different m n (append_cancel b e'))

-- `QString::number`.
decimal_from : ℕ → ℕ → Text → Text
decimal_from zero n ds = ds
decimal_from (suc fuel) n ds =
    let rest = decimal_from fuel (n / 10) ((48 + n % 10) ∷ ds) in
    if ltb n 10 then (48 + n) ∷ ds else rest

unfoldable pub decimal : ℕ → Text
unfolding decimal_from
decimal n = decimal_from (suc n) n []

value_of : ℕ → Text → ℕ
value_of v [] = v
value_of v (d ∷ ds) = value_of (v * 10 + (d - 48)) ds

decimal_from-value :
    (fuel n : ℕ) (ds : Text) → n < fuel → value_of 0 (decimal_from fuel n ds) ≡ value_of n ds
unfolding decimal_from value_of
decimal_from-value zero n ds h = elim h [ ]
decimal_from-value (suc fuel) n ds h = elim (Bool-cases (ltb n 10)) [
  | inl small ↦ rw small (ap (λ v. value_of v ds) (omega arith))
  | inr large ↦ rw large (
      decimal_from-value fuel (n / 10) ((48 + n % 10) ∷ ds) (ground arith)
      ∙ ap (λ v. value_of v ds) (omega arith))
]

decimal_from-digits :
    (fuel n : ℕ) (ds : Text)
    → All (λ c. is_digit c ≡ true) ds
    → All (λ c. is_digit c ≡ true) (decimal_from fuel n ds)
unfolding decimal_from
decimal_from-digits zero n ds h = h
decimal_from-digits (suc fuel) n ds h = elim (Bool-cases (ltb n 10)) [
  | inl small ↦ rw small (ground arith, h)
  | inr large ↦ rw large (decimal_from-digits fuel (n / 10) _ (ground arith, h))
]

decimal_from-ne-nil :
    (fuel n : ℕ) (d : ℕ) (ds : Text) → is_empty (decimal_from fuel n (d ∷ ds)) ≡ false
unfolding decimal_from
decimal_from-ne-nil zero n d ds = refl
decimal_from-ne-nil (suc fuel) n d ds =
    ground (arith, decimal_from-ne-nil fuel (n / 10) (48 + n % 10) (d ∷ ds))

decimal-ne-nil : (n : ℕ) → is_empty (decimal n) ≡ false
unfolding decimal decimal_from
decimal-ne-nil n = ground (arith, decimal_from-ne-nil n (n / 10) (48 + n % 10) [])

decimal-different : (m n : ℕ) → decimal m ≡ decimal n → m ≡ n
unfolding decimal value_of
decimal-different m n e =
    sym (decimal_from-value (suc m) m [] (omega arith))
    ∙ ap (value_of 0) e
    ∙ decimal_from-value (suc n) n [] (omega arith)

pub decimal-Numbers : Numbers decimal
unfolding decimal
decimal-Numbers = record {
  digits = λ n. decimal_from-digits (suc n) n [] tt;
  not_empty = decimal-ne-nil;
  different = decimal-different;
}

-- Names that end in a digit are not unique: with its numbers, a name followed by the digit 1 makes
-- the same text for the second value as the name itself for the twelfth.
pub make_unique_name-collides :
    (name : Text) (b : Builder)
    → (make_unique_name decimal (name ++ codes "1") (record b { variable_counter = 2 })).0
      ≡ (make_unique_name decimal name (record b { variable_counter = 12 })).0
unfolding make_unique_name decimal decimal_from
make_unique_name-collides name b = append_assoc name (codes "1") (codes "2")
