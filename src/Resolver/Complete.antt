-- ===== src/Resolver/Complete.antt =====
-- src/lib/sparqlresolver.cpp: entries of which the first unknown ones are filled in.
use qtcontacts_tracker.Base.{
  ℕ, zero, suc, ◌+◌, ◌≡◌, refl, sym, inl, inr, Bool, false, if◌then◌else◌, List, [], ◌∷◌, ◌++◌,
  length, take, arith, Bool-cases,
}
use native.Mathlib.Nat.{add-zero, suc-add}
use Prim.Native.Nat.add

module _ {K V : Type 0} (unknown : V → Bool) where
  -- The keys whose value is not known.
  abbrev pub unknown_keys : List (K × V) → List K
  unknown_keys [] = []
  unknown_keys ((k, w) ∷ es) = let rest = unknown_keys es in if unknown w then k ∷ rest else rest

  pub unknown_keys-append :
      (xs ys : List (K × V)) → unknown_keys (xs ++ ys) ≡ unknown_keys xs ++ unknown_keys ys
  unknown_keys-append [] ys = refl
  unknown_keys-append ((k, w) ∷ xs) ys = ground (arith, unknown_keys-append xs ys)

module _ {K V : Type 0} (unknown : V → Bool) (value : K → V) where
  -- The first `n` unknown values are filled in.
  abbrev pub complete_first : ℕ → List (K × V) → List (K × V)
  complete_first zero es = es
  complete_first (suc n) [] = []
  complete_first (suc n) ((k, w) ∷ es) =
      let filled = complete_first n es in
      let passed = complete_first (suc n) es in
      if unknown w then (k, value k) ∷ filled else (k, w) ∷ passed

  -- All unknown values are filled in.
  abbrev pub complete : List (K × V) → List (K × V)
  complete [] = []
  complete ((k, w) ∷ es) = (k, (if unknown w then value k else w)) ∷ complete es

  -- The values of the keys are known ones.
  abbrev pub Resolves : List (K × V) → Type 0
  Resolves [] = Unit {0}
  Resolves (e ∷ es) = (unknown (value e.0) ≡ false) × Resolves es

  pub complete_known : (es : List (K × V)) → unknown_keys unknown es ≡ [] → complete es ≡ es
  complete_known [] h = refl
  complete_known ((k, w) ∷ es) h = ground (arith, complete_known es)

  pub complete_first-all :
      (es : List (K × V)) (ps : List K)
      → unknown_keys unknown es ≡ ps
      → complete_first (length ps) es ≡ complete es
  complete_first-all [] [] h = refl
  complete_first-all ((k, w) ∷ es) [] h = sym (complete_known ((k, w) ∷ es) h)
  complete_first-all [] (p ∷ ps) h = cc
  complete_first-all ((k, w) ∷ es) (p ∷ ps) h =
      ground (arith, complete_first-all es ps, complete_first-all es (p ∷ ps))

  pub complete-complete_first :
      (n : ℕ) (es : List (K × V)) → Resolves es → complete (complete_first n es) ≡ complete es
  complete-complete_first zero es r = refl
  complete-complete_first (suc n) [] r = refl
  complete-complete_first (suc n) ((k, w) ∷ es) r =
      ground (arith, complete-complete_first n es r.1, complete-complete_first (suc n) es r.1)

  pub complete_first-Resolves :
      (n : ℕ) (es : List (K × V)) → Resolves es → Resolves (complete_first n es)
  complete_first-Resolves zero es r = r
  complete_first-Resolves (suc n) [] r = tt
  complete_first-Resolves (suc n) ((k, w) ∷ es) r =
      ground (arith, complete_first-Resolves n es r.1, complete_first-Resolves (suc n) es r.1)

  pub unknown_keys-complete_first :
      (es : List (K × V)) (ps rest : List K)
      → Resolves es
      → unknown_keys unknown es ≡ ps ++ rest
      → unknown_keys unknown (complete_first (length ps) es) ≡ rest
  unknown_keys-complete_first [] [] rest r h = h
  unknown_keys-complete_first (e ∷ es) [] rest r h = h
  unknown_keys-complete_first [] (p ∷ ps) rest r h = cc
  unknown_keys-complete_first ((k, w) ∷ es) (p ∷ ps) rest r h = ground (
    arith,
    unknown_keys-complete_first es ps rest r.1,
    unknown_keys-complete_first es (p ∷ ps) rest r.1,
  )

  -- Entries in front of the first unknown one stay as they are.
  pub complete_first-append :
      (n : ℕ) (xs ys : List (K × V))
      → unknown_keys unknown xs ≡ []
      → complete_first n (xs ++ ys) ≡ xs ++ complete_first n ys
  complete_first-append zero xs ys h = refl
  complete_first-append (suc n) [] ys h = refl
  complete_first-append (suc n) ((k, w) ∷ xs) ys h =
      ground (arith, complete_first-append (suc n) xs ys)

  take_less :
      (n : ℕ) (es : List (K × V))
      → unknown_keys unknown (take (suc n) es) ≡ []
      → unknown_keys unknown (take n es) ≡ []
  take_less zero es h = refl
  take_less (suc n) [] h = refl
  take_less (suc n) ((k, w) ∷ es) h = ground (arith, take_less n es)

  take-complete_first_zero :
      (es : List (K × V)) (ps rest : List K)
      → Resolves es
      → unknown_keys unknown es ≡ ps ++ rest
      → unknown_keys unknown (take (length ps) (complete_first (length ps) es)) ≡ []
  take-complete_first_zero es [] rest r h = refl
  take-complete_first_zero [] (p ∷ ps) rest r h = refl
  take-complete_first_zero ((k, w) ∷ es) (p ∷ ps) rest r h = elim (Bool-cases (unknown w)) [
    | inl open_ ↦
        let ih = take-complete_first_zero es ps rest r.1 (ground arith) in ground (arith, ih)
    | inr known ↦
        let ih = take-complete_first_zero es (p ∷ ps) rest r.1 (ground arith) in
        ground (arith, take_less (length ps) (complete_first (suc (length ps)) es) ih)
  ]

  -- If no entry in front of the offset is unknown, then after `n` more values no entry in front of
  -- the offset plus `n` is.
  pub take-complete_first :
      (o : ℕ) (es : List (K × V)) (ps rest : List K)
      → Resolves es
      → unknown_keys unknown (take o es) ≡ []
      → unknown_keys unknown es ≡ ps ++ rest
      → unknown_keys unknown (take (o + length ps) (complete_first (length ps) es)) ≡ []
  take-complete_first zero es ps rest r t h =
      rw (add.zero (length ps)) (take-complete_first_zero es ps rest r h)
  take-complete_first (suc o) es [] rest r t h = rw add-zero t
  take-complete_first (suc o) [] (p ∷ ps) rest r t h = cc
  take-complete_first (suc o) ((k, w) ∷ es) (p ∷ ps) rest r t h = elim (Bool-cases (unknown w)) [
    | inl open_ ↦ absurd (ground arith)
    | inr known ↦
        let ih = take-complete_first o es (p ∷ ps) rest r.1 (ground arith) (ground arith) in
        rw (suc-add o (length (p ∷ ps))) (ground (arith, ih))
  ]
