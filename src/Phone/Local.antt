-- ===== src/Phone/Local.antt =====
-- src/lib/phoneutils.cpp: local phone numbers.
use qtcontacts_tracker.Base.{
  ℕ, suc, ◌+◌, ◌-◌, ◌≡◌, ◌≤◌, refl, Bool, true, false, Text, [], ◌∷◌, ◌++◌, All, arith, ap, ◌∙◌,
  sym, take, drop, length, take-append-drop, length-take, length-drop,
}
use Prim.Native.Nat.{min, zero}
use mathlib.Core.Path.{subst}
use qtcontacts_tracker.Phone.{
  normalize, local_options, make_local_phone_number, dtmf_index, end_of_number, is_dtmf,
}
use qtcontacts_tracker.Phone.Normal.{normalize-append}

-- The tones that follow the digits to dial, from the first character for one on.
abbrev pub StartsWithTone : Text → Type 0
StartsWithTone [] = Unit
StartsWithTone (c ∷ cs) = is_dtmf c ≡ true

index_lem :
    (t : Text)
    → let i = end_of_number (dtmf_index t) t in
      (i ≤ length t) × All (λ c. is_dtmf c ≡ false) (take i t) × StartsWithTone (drop i t)
unfolding dtmf_index
index_lem [] = (omega arith, tt, tt)
index_lem (c ∷ cs) = ground (arith, index_lem cs)

-- A prefix without tones moves the end of the number by its length.
index-append :
    (p t : Text)
    → All (λ c. is_dtmf c ≡ false) p
    → end_of_number (dtmf_index (p ++ t)) (p ++ t) ≡ length p + end_of_number (dtmf_index t) t
unfolding dtmf_index
index-append [] t a = omega arith
index-append (c ∷ p) t a = ground (arith, a.0, index-append p t a.1)

drop-append : (k : ℕ) (p t : Text) → drop (length p + k) (p ++ t) ≡ drop k t
drop-append k [] t = ground arith
drop-append k (c ∷ p) t =
    let shift : suc (length p) + k ≡ suc (length p + k) = omega arith in
    ap (λ m. drop m (c ∷ p ++ t)) shift ∙ drop-append k p t

drop_split : (k i : ℕ) (t : Text) → k ≤ i → drop k t ≡ drop k (take i t) ++ drop i t
drop_split zero i t h = sym (take-append-drop i t)
drop_split (suc k) zero t h = ground (arith, h)
drop_split (suc k) (suc i) [] h = refl
drop_split (suc k) (suc i) (c ∷ t) h = drop_split k i t (omega (arith, h))

-- A number, taken apart: what a local number leaves out, what it keeps, and the tones.
pub record Parts (n : ℕ) (number local : Text) : Type 0 where
  pub dropped : Text
  pub kept : Text
  pub tones : Text
  pub whole : (dropped ++ kept) ++ tones ≡ number
  pub is_local : kept ++ tones ≡ local
  pub no_tones : All (λ c. is_dtmf c ≡ false) (dropped ++ kept)
  pub only_tones : StartsWithTone tones
  pub size : length kept ≡ min n (length (dropped ++ kept))

module _ (is_digit : ℕ → Bool) (digit_value : ℕ → ℕ) (is_format : ℕ → Bool) where
  -- A local number is the last `n` characters of the normal form before its first tone, or all of
  -- them if there are fewer, and then the tones.
  pub make_local_phone_number_lem :
      (n : ℕ) (value : Text)
      → Parts n
          (normalize is_digit digit_value is_format local_options value)
          (make_local_phone_number is_digit digit_value is_format n value)
  unfolding make_local_phone_number
  make_local_phone_number_lem n value =
      let number = normalize is_digit digit_value is_format local_options value in
      let i = end_of_number (dtmf_index number) number in
      let split = index_lem number in
      let exact : min i (length number) - (i - n) ≡ min n (min i (length number)) =
        omega (arith, split.0) in
      let joined = take-append-drop (i - n) (take i number) in
      record {
        dropped = take (i - n) (take i number);
        kept = drop (i - n) (take i number);
        tones = drop i number;
        whole = rw (joined, take-append-drop i number);
        is_local = sym (drop_split (i - n) i number (omega arith));
        no_tones = subst (All (λ c. is_dtmf c ≡ false)) (sym joined) split.1;
        only_tones = split.2;
        size = rw (joined, length-drop (i - n) (take i number), length-take i number, exact);
      }

  -- Numbers that end alike have the same local number: what stands before the last `n` characters
  -- that are dialled does not matter, if it has no tones.
  pub make_local_phone_number-append :
      (n : ℕ) (prefix value : Text)
      → All (λ c. is_dtmf c ≡ false) (normalize is_digit digit_value is_format local_options prefix)
      → (let number = normalize is_digit digit_value is_format local_options value in
          n ≤ end_of_number (dtmf_index number) number)
      → make_local_phone_number is_digit digit_value is_format n (prefix ++ value)
        ≡ make_local_phone_number is_digit digit_value is_format n value
  unfolding make_local_phone_number
  make_local_phone_number-append n prefix value a h =
      let p = normalize is_digit digit_value is_format local_options prefix in
      let t = normalize is_digit digit_value is_format local_options value in
      let i = end_of_number (dtmf_index t) t in
      let shift : (length p + i) - n ≡ length p + (i - n) = omega (arith, h) in
      rw (
        normalize-append is_digit digit_value is_format local_options prefix value,
        index-append p t a,
        shift,
        drop-append (i - n) p t,
      )
