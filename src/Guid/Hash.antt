-- ===== src/Guid/Hash.antt =====
-- src/engine/guidalgorithm.cpp: the length of a hash.
use qtcontacts_tracker.Base.{
  ℕ, zero, suc, ◌+◌, ◌-◌, ◌*◌, ◌/◌, ◌%◌, ◌<◌, ◌≤◌, ◌≡◌, refl, Bool, true, ◌&&◌, ◌||◌, All,
  All-append, leb, Text, [], ◌∷◌, ◌++◌, some, get_elem?, length, length-append, arith,
}
use native.Mathlib.Nat.{mul-div-le}
use qtcontacts_tracker.Guid.{
  spaces, left_justified, hex_number, abs_char, char_sum, padded, hash_loop, make_hash,
}

get_elem?_total : (xs : Text) (i : ℕ) → i < length xs → (x : ℕ) × (get_elem? xs i ≡ some x)
get_elem?_total [] i h = absurd (omega (arith, h))
get_elem?_total (x ∷ xs) zero h = (x, refl)
get_elem?_total (x ∷ xs) (suc i) h = get_elem?_total xs i (omega (arith, h))

length-spaces : (n : ℕ) → length (spaces n) ≡ n
length-spaces zero = omega arith
length-spaces (suc n) = omega (arith, length-spaces n)

length-left_justified : (n : ℕ) (text : Text) → n ≤ length (left_justified n text)
length-left_justified n text =
    omega (arith, length-append text (spaces (n - length text)), length-spaces (n - length text))

module _ (to_latin1 : ℕ → ℕ) where
  char_sum_total :
      (text : Text) (n position c : ℕ)
      → position + n ≤ length text
      → c < 256
      → (s : ℕ) × (char_sum to_latin1 text n position c ≡ some s) × (s < 256)
  unfolding char_sum
  char_sum_total text zero position c h b = (c, refl, b)
  char_sum_total text (suc n) position c h b =
      let (ch, e) = get_elem?_total text position (omega (arith, h)) in
      let (s, e', b') =
        char_sum_total text n (suc position) ((c + to_latin1 ch) % 256) (omega (arith, h))
          (omega arith) in
      (s, ground (arith, e, e'), b')

abbrev pub is_hex : ℕ → Bool
is_hex c = (leb 48 c && leb c 57) || (leb 97 c && leb c 102)

-- Two hexadecimal digits stand for each byte, whether or not it is signed.
padded_lem :
    (signed_char : Bool) (c : ℕ)
    → c < 256
    → (length (padded (hex_number (abs_char signed_char c))) ≡ 2)
      × All (λ d. is_hex d ≡ true) (padded (hex_number (abs_char signed_char c)))
padded_lem signed_char c h = ground (arith, h)

module _ (to_latin1 : ℕ → ℕ) (signed_char : Bool) where
  hash_loop_total :
      (text : Text) (stride n i : ℕ)
      → (i + n) * stride ≤ length text
      → (hash : Text) × (hash_loop to_latin1 signed_char text stride n i ≡ some hash)
        × (length hash ≡ 2 * n)
        × All (λ d. is_hex d ≡ true) hash
  unfolding hash_loop
  hash_loop_total text stride zero i h = ([], refl, refl, tt)
  hash_loop_total text stride (suc n) i h =
      let now : i * stride + stride ≤ length text = grind (arith, h) in
      let later : (suc i + n) * stride ≤ length text = grind (arith, h) in
      let (c, e, b) = char_sum_total to_latin1 text stride (i * stride) 0 now (omega arith) in
      let (rest, e', l, a) = hash_loop_total text stride n (suc i) later in
      let byte = padded (hex_number (abs_char signed_char c)) in
      let two = padded_lem signed_char c b in
      (
        byte ++ rest,
        ground (arith, e, e'),
        omega (arith, l, two.0, length-append byte rest),
        All-append (λ d. is_hex d ≡ true) byte rest two.1 a,
      )

  -- For any text and any size from two on, the hash is defined: no character is read out of
  -- bounds. It has as many digits as twice the half of the size, all of them hexadecimal, whether
  -- or not a `char` is signed.
  pub make_hash_total :
      (text : Text) (size : ℕ)
      → 2 ≤ size
      → (hash : Text) × (make_hash to_latin1 signed_char text size ≡ some hash)
        × (length hash ≡ 2 * (size / 2))
        × All (λ d. is_hex d ≡ true) hash
  unfolding make_hash
  make_hash_total text size h =
      let text' = left_justified size text in
      let half = size / 2 in
      let (hash, e, l, a) =
        hash_loop_total text' (length text' / half) half 0
          (omega (arith, mul-div-le (length text') half)) in
      (hash, ground (arith, e, h), l, a)
