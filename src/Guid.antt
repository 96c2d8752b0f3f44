-- ===== src/Guid.antt =====
-- src/engine/guidalgorithm.cpp: hashes for GUIDs, and who waits for the hash of the hardware.
--
-- A `char` is a byte, and `signed_char` says whether the platform reads it as signed. The Latin-1
-- code of a character is a parameter. An index out of range and a division by zero are `none`.
use qtcontacts_tracker.Base.{
  ℕ, zero, suc, ◌+◌, ◌-◌, ◌*◌, ◌/◌, ◌%◌, ◌^◌, Bool, true, false, ◌&&◌, not, leb, ltb, ◌==◌,
  if◌then◌else◌, Text, List, [], ◌∷◌, ◌++◌, Option, none, some, get_elem?, length, map, is_empty,
}
pub mod Hash
pub mod Waiting
mod Tests

abbrev pub spaces : ℕ → Text
spaces zero = []
spaces (suc n) = 32 ∷ spaces n

-- `QString::leftJustified`.
abbrev pub left_justified : ℕ → Text → Text
left_justified n text = text ++ spaces (n - length text)

abbrev pub hex_digit : ℕ → ℕ
hex_digit n = if ltb n 10 then 48 + n else 87 + n

-- `QString::number(n, 16)` of a number below 256.
abbrev pub hex_number : ℕ → Text
hex_number n = if ltb n 16 then hex_digit n ∷ [] else hex_digit (n / 16) ∷ hex_digit (n % 16) ∷ []

-- `abs` of a `char`.
abbrev pub abs_char : Bool → ℕ → ℕ
abs_char signed_char c = if signed_char && leb 128 c then 256 - c else c

module _ (to_latin1 : ℕ → ℕ) where
  -- The inner loop of `makeHash`: `n` characters are added to a `char`, from a position on.
  unfoldable pub char_sum : Text → ℕ → ℕ → ℕ → Option ℕ
  char_sum text zero position c = some c
  char_sum text (suc n) position c = elim (get_elem? text position) [
    | none ↦ none
    | some ch ↦ char_sum text n (suc position) ((c + to_latin1 ch) % 2 ^ 8)
  ]

abbrev pub padded : Text → Text
padded number = if ltb (length number) 2 then 48 ∷ number else number

module _ (to_latin1 : ℕ → ℕ) (signed_char : Bool) where
  -- The outer loop, with `n` turns left, in the turn `i`.
  unfoldable pub hash_loop : Text → ℕ → ℕ → ℕ → Option Text
  unfolding char_sum
  hash_loop text stride zero i = some []
  hash_loop text stride (suc n) i = elim (char_sum to_latin1 text stride (i * stride) 0) [
    | none ↦ none
    | some c ↦ elim (hash_loop text stride n (suc i)) [
      | none ↦ none
      | some rest ↦ some (padded (hex_number (abs_char signed_char c)) ++ rest)
    ]
  ]

  unfoldable pub make_hash : Text → ℕ → Option Text
  unfolding hash_loop
  make_hash text size =
      let text' = left_justified size text in
      let half = size / 2 in
      let hash = hash_loop text' (length text' / half) half 0 in if half == 0 then none else hash

-- The hash of the hardware, the last number that was read, and the closures that wait for it. A closure is its receiver, or none
-- if that has been destroyed.
pub record Cellular : Type 0 where
  pub hash_ready : Bool
  pub hardware_hash : Text
  pub last_msisdn : Text
  pub closures : List ℕ
  pub called : List ℕ

-- As the constructor leaves it, with the hash of the last number.
abbrev pub waiting : Text → Text → Cellular
waiting hash msisdn = record {
  hash_ready = false;
  hardware_hash = hash;
  last_msisdn = msisdn;
  closures = [];
  called = [];
}

-- `callWhenReady`.
unfoldable pub call_when_ready : Cellular → ℕ → Cellular
call_when_ready a receiver =
    if a.hash_ready
    then record a { called = a.called ++ receiver ∷ [] }
    else record a { closures = a.closures ++ receiver ∷ [] }

unfoldable pub invoke_all : (ℕ → Bool) → List ℕ → List ℕ
invoke_all alive [] = []
invoke_all alive (r ∷ rs) = let rest = invoke_all alive rs in if alive r then r ∷ rest else rest

-- `notifyReady`: `alive` tells which receivers still exist.
unfoldable pub notify_ready : (ℕ → Bool) → Cellular → Cellular
unfolding invoke_all
notify_ready alive a = record a { closures = []; called = a.called ++ invoke_all alive a.closures }

-- `onReadExactComplete`: `no_error` is the test on the SIM's answer, and `hash` is `makeHash` of
-- the hardware's data and the number.
unfoldable pub on_read_complete : (Text → Text) → (ℕ → Bool) → Cellular → Text → Bool → Cellular
unfolding notify_ready
on_read_complete hash alive a number no_error =
    let msisdn = if no_error && not (is_empty number) then number else a.last_msisdn in
    notify_ready alive
      (record a { last_msisdn = msisdn; hardware_hash = hash msisdn; hash_ready = true })

-- `onSimStatusChanged` for a status other than `Ok`; with `Ok` the number is asked for, and nothing
-- else happens.
unfoldable pub on_sim_failed : (Text → Text) → (ℕ → Bool) → Cellular → Cellular
unfolding on_read_complete
on_sim_failed hash alive a = on_read_complete hash alive a [] false
