-- ===== src/Phone/Normal.antt =====
-- src/lib/phoneutils.cpp: what a normal form holds.
use qtcontacts_tracker.Base.{
  ℕ, ◌+◌, ◌≡◌, ◌≤◌, refl, Bool, true, ◌&&◌, not, leb, if◌then◌else◌, Text, [], ◌∷◌, ◌++◌, All,
  arith, All-append, Bool-cases, inl, inr,
}
use mathlib.Core.List.{append_assoc}
use qtcontacts_tracker.Phone.{NormalizationOptions, normalize_char, normalize, is_visual_separator}

module _ (is_digit : ℕ → Bool) (digit_value : ℕ → ℕ) (is_format : ℕ → Bool) where
  -- A digit has a value up to 9, and the Latin digits are digits with their own values.
  pub record DigitsAreDecimal : Type 0 where
    pub is_decimal : (c : ℕ) → is_digit c ≡ true → digit_value c ≤ 9
    pub latin_is_digit : (d : ℕ) → d ≤ 9 → is_digit (48 + d) ≡ true
    pub latin_value : (d : ℕ) → d ≤ 9 → digit_value (48 + d) ≡ d

  -- A character that may stand in a normal form.
  abbrev pub is_normal : NormalizationOptions → ℕ → Bool
  is_normal o c =
      if o.convert_to_latin && is_digit c
      then leb 48 c && leb c 57
      else not (o.remove_number_formatters && is_visual_separator c)
        && not (o.remove_unicode_formatters && is_format c)

  pub normalize-append :
      (o : NormalizationOptions) (xs ys : Text)
      → normalize is_digit digit_value is_format o (xs ++ ys)
        ≡ normalize is_digit digit_value is_format o xs
          ++ normalize is_digit digit_value is_format o ys
  unfolding normalize
  normalize-append o [] ys = refl
  normalize-append o (x ∷ xs) ys = rw (
    normalize-append o xs ys,
    append_assoc (normalize_char is_digit digit_value is_format o x)
        (normalize is_digit digit_value is_format o xs)
        (normalize is_digit digit_value is_format o ys),
  )

  normalize-normalize_char :
      DigitsAreDecimal
      → (o : NormalizationOptions) (c : ℕ)
      → normalize is_digit digit_value is_format o
          (normalize_char is_digit digit_value is_format o c)
        ≡ normalize_char is_digit digit_value is_format o c
  unfolding normalize normalize_char
  normalize-normalize_char d o c = elim (Bool-cases (is_digit c)) [
    | inl e ↦
        let value = d.is_decimal c e in
        ground (
          arith,
          e,
          value,
          d.latin_is_digit (digit_value c) value,
          d.latin_value (digit_value c) value,
        )
    | inr e ↦ ground (arith, e)
  ]

  normalize_char-IsNormal :
      DigitsAreDecimal
      → (o : NormalizationOptions) (c : ℕ)
      → All (λ x. is_normal o x ≡ true) (normalize_char is_digit digit_value is_format o c)
  unfolding normalize_char
  normalize_char-IsNormal d o c = elim (Bool-cases (is_digit c)) [
    | inl e ↦
        let value = d.is_decimal c e in
        ground (arith, e, value, d.latin_is_digit (digit_value c) value)
    | inr e ↦ ground (arith, e)
  ]

  -- A normal form holds normal characters only: no digit but the Latin ones if digits are
  -- converted, and otherwise no formatting character that the options remove.
  pub normalize-IsNormal :
      DigitsAreDecimal
      → (o : NormalizationOptions) (value : Text)
      → All (λ x. is_normal o x ≡ true) (normalize is_digit digit_value is_format o value)
  unfolding normalize
  normalize-IsNormal d o [] = tt
  normalize-IsNormal d o (c ∷ cs) =
      All-append (λ x. is_normal o x ≡ true) (normalize_char is_digit digit_value is_format o c)
        (normalize is_digit digit_value is_format o cs) (normalize_char-IsNormal d o c)
        (normalize-IsNormal d o cs)

  -- A number in normal form is its own normal form, under the same options.
  pub normalize_idem :
      DigitsAreDecimal
      → (o : NormalizationOptions) (value : Text)
      → normalize is_digit digit_value is_format o
          (normalize is_digit digit_value is_format o value)
        ≡ normalize is_digit digit_value is_format o value
  unfolding normalize
  normalize_idem d o [] = refl
  normalize_idem d o (c ∷ cs) = rw (
    normalize-append o (normalize_char is_digit digit_value is_format o c)
        (normalize is_digit digit_value is_format o cs),
    normalize-normalize_char d o c,
    normalize_idem d o cs,
  )
