-- ===== src/Phone.antt =====
-- src/lib/phoneutils.cpp: normal forms of phone numbers.
--
-- A character is its code unit; what Qt knows about a character is a parameter. The length of
-- local numbers is the setting `numberMatchLength`, which is not negative here.
use qtcontacts_tracker.Base.{
  ℕ, suc, ◌+◌, ◌-◌, ◌%◌, ◌^◌, Bool, true, false, ◌&&◌, ◌==◌, if◌then◌else◌, Text, codes, List, [],
  ◌∷◌, ◌++◌, Option, none, some, any, drop, length, is_empty, map,
}
pub mod Normal
pub mod Local
mod Tests

-- `Qct::NumberNormalizationOptions`.
pub record NormalizationOptions : Type 0 where
  pub remove_number_formatters : Bool
  pub convert_to_latin : Bool
  pub remove_unicode_formatters : Bool

abbrev pub visual_separators : Text
visual_separators = codes "[() .-]"

abbrev pub is_visual_separator : ℕ → Bool
is_visual_separator c = any (λ s. s == c) visual_separators

-- `qctPhoneNumberDTMFChars`: [pwx], in both cases.
abbrev pub is_dtmf : ℕ → Bool
is_dtmf c = any (λ s. s == c) (codes "pwxPWX")

-- `number.indexOf(qctPhoneNumberDTMFChars())`, none for -1.
unfoldable pub dtmf_index : Text → Option ℕ
dtmf_index [] = none
dtmf_index (c ∷ cs) = let rest = dtmf_index cs in if is_dtmf c then some 0 else shifted rest
  where
    shifted : Option ℕ → Option ℕ
    shifted none = none
    shifted (some i) = some (suc i)

abbrev pub local_options : NormalizationOptions
local_options = record {
  remove_number_formatters = true;
  convert_to_latin = true;
  remove_unicode_formatters = true;
}

abbrev pub end_of_number : Option ℕ → Text → ℕ
end_of_number none number = length number
end_of_number (some i) number = i

module _ (is_digit : ℕ → Bool) (digit_value : ℕ → ℕ) (is_format : ℕ → Bool) where
  -- What the loop of `qctNormalizePhoneNumber` makes of one character.
  unfoldable pub normalize_char : NormalizationOptions → ℕ → Text
  normalize_char options c =
      if options.convert_to_latin && is_digit c
      then (48 + digit_value c) % 2 ^ 8 ∷ []
      else if options.remove_number_formatters && is_visual_separator c
      then []
      else if options.remove_unicode_formatters && is_format c
      then []
      else c ∷ []

  unfoldable pub normalize : NormalizationOptions → Text → Text
  unfolding normalize_char
  normalize options [] = []
  normalize options (c ∷ cs) = normalize_char options c ++ normalize options cs

  -- `qctMakeLocalPhoneNumber`.
  unfoldable pub make_local_phone_number : ℕ → Text → Text
  unfolding normalize dtmf_index
  make_local_phone_number local_length value =
      let number = normalize local_options value in
      drop (end_of_number (dtmf_index number) number - local_length) number

abbrev pub joined : Text → List Text → Text
joined separator [] = []
joined separator (t ∷ []) = t
joined separator (t ∷ u ∷ us) = t ++ separator ++ joined separator (u ∷ us)

-- `qctMakePhoneNumberIri`.
module _ (escape_iri to_lower : Text → Text) (sort : List Text → List Text) where
  abbrev pub escaped : Bool → Text → Text
  escaped escape t = if escape then escape_iri t else t

  unfoldable pub make_phone_number_iri : Text → List Text → Bool → Text
  make_phone_number_iri number subtypes escape =
      if is_empty subtypes
      then codes "urn:x-maemo-phone:" ++ escaped escape number
      else codes "urn:x-maemo-phone:"
        ++ (joined (codes ",") (sort (map (λ t. escaped escape (to_lower t)) subtypes))
            ++ codes ":"
            ++ escaped escape number)
