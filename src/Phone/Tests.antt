-- ===== src/Phone/Tests.antt =====
-- src/lib/phoneutils.cpp: the theorems at concrete numbers, with the Latin and the eastern Arabic
-- digits.
use qtcontacts_tracker.Base.{
  ℕ, ◌-◌, ◌+◌, ◌≤◌, ◌≡◌, refl, Bool, true, ◌&&◌, ◌||◌, ◌==◌, leb, if◌then◌else◌, Text, codes, [],
  ◌∷◌, arith,
}
use qtcontacts_tracker.Phone.{
  normalize, local_options, make_local_phone_number, make_phone_number_iri, normalize_char,
  dtmf_index,
}
use qtcontacts_tracker.Phone.Normal.{DigitsAreDecimal}
use qtcontacts_tracker.Phone.Local.{Parts, make_local_phone_number_lem}

abbrev is_latin : ℕ → Bool
is_latin c = leb 48 c && leb c 57

abbrev is_digit : ℕ → Bool
is_digit c = is_latin c || (leb 1632 c && leb c 1641)

abbrev digit_value : ℕ → ℕ
digit_value c = if is_latin c then c - 48 else c - 1632

abbrev is_format : ℕ → Bool
is_format c = c == 8234

is_decimal : (c : ℕ) → is_digit c ≡ true → digit_value c ≤ 9
is_decimal c h = ground arith

latin_is_digit : (d : ℕ) → d ≤ 9 → is_digit (48 + d) ≡ true
latin_is_digit d h = ground arith

latin_value : (d : ℕ) → d ≤ 9 → digit_value (48 + d) ≡ d
latin_value d h = ground arith

abbrev decimal : DigitsAreDecimal is_digit digit_value is_format
decimal = record {
  is_decimal = is_decimal;
  latin_is_digit = latin_is_digit;
  latin_value = latin_value;
}

abbrev office : Text
office = codes "+358 (40) 123-4567p99"

local_office : make_local_phone_number is_digit digit_value is_format 7 office ≡ codes "1234567p99"
unfolding make_local_phone_number normalize normalize_char dtmf_index
local_office = refl

iri_of_office :
    make_phone_number_iri
      (λ t. t)
      (λ t. t)
      (λ ts. ts)
      (codes "112")
      (codes "fax" ∷ codes "voice" ∷ [])
      true
    ≡ codes "urn:x-maemo-phone:fax,voice:112"
unfolding make_phone_number_iri
iri_of_office = refl

make_local_phone_number_lem_example :
    Parts 7
      (normalize is_digit digit_value is_format local_options office)
      (make_local_phone_number is_digit digit_value is_format 7 office)
make_local_phone_number_lem_example =
    make_local_phone_number_lem is_digit digit_value is_format 7 office
