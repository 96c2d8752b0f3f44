-- ===== src/Guid/Tests.antt =====
-- src/engine/guidalgorithm.cpp: hashes and waiting closures at concrete inputs.
use qtcontacts_tracker.Base.{
  ℕ, Bool, true, Text, [], ◌∷◌, ◌++◌, some, ◌==◌, ◌≡◌, refl, length, All, ◌*◌, ◌/◌, arith, select,
}
use qtcontacts_tracker.Guid.{waiting, char_sum, hash_loop, make_hash, on_read_complete}
use qtcontacts_tracker.Guid.Hash.{is_hex, make_hash_total}
use qtcontacts_tracker.Guid.Waiting.{call_all, call_all-on_read_complete}

abbrev latin1 : ℕ → ℕ
latin1 c = c

make_hash_total_example :
    (hash : Text) × (make_hash latin1 true (200 ∷ 65 ∷ 66 ∷ []) 4 ≡ some hash)
    × (length hash ≡ 2 * (4 / 2))
    × All (λ d. is_hex d ≡ true) hash
make_hash_total_example = make_hash_total latin1 true (200 ∷ 65 ∷ 66 ∷ []) 4 (omega arith)

-- 200 + 65 wraps around to 9, and 66 + 32 is 98.
hash_of_three : make_hash latin1 true (200 ∷ 65 ∷ 66 ∷ []) 4 ≡ some (48 ∷ 57 ∷ 54 ∷ 50 ∷ [])
unfolding make_hash hash_loop char_sum
hash_of_three = refl

abbrev even : ℕ → Bool
even r = r == 2

call_all-on_read_complete_example :
    let a =
      call_all
        (on_read_complete (λ n. n) even (call_all (waiting [] []) (1 ∷ 2 ∷ [])) (55 ∷ []) true)
        (3 ∷ []) in
    (a.called ≡ select even (1 ∷ 2 ∷ []) ++ (3 ∷ [])) × (a.closures ≡ [])
call_all-on_read_complete_example =
    call_all-on_read_complete (λ n. n) even (55 ∷ []) [] [] true (1 ∷ 2 ∷ []) (3 ∷ [])
