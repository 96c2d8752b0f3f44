-- ===== src/Resolver/Queries.antt =====
-- src/lib/sparqlresolver.cpp: the columns, cut into queries.
use qtcontacts_tracker.Base.{
  ℕ, zero, suc, ◌≤◌, ◌≡◌, refl, ap, ◌∙◌, List, [], ◌∷◌, ◌++◌, map, length, take, drop, arith,
  take-append-drop, length-drop, length-map,
}
use mathlib.Core.Path.{ap₂}
use qtcontacts_tracker.Resolver.{column_limit, chunks, make_queries}

abbrev pub concat {ℓ} : {A : Type ℓ} → List (List A) → List A
concat [] = []
concat (xs ∷ xss) = xs ++ concat xss

-- Cutting columns into queries loses none and keeps their order, and no query has too many.
concat-chunks {ℓ} :
    {A : Type ℓ} (fuel : ℕ) (ps : List A) → length ps ≤ fuel → concat (chunks fuel ps) ≡ ps
unfolding chunks
concat-chunks zero [] h = refl
concat-chunks zero (p ∷ ps) h = absurd (omega arith)
concat-chunks (suc fuel) [] h = refl
concat-chunks (suc fuel) (p ∷ ps) h =
    ap (◌++◌ (take column_limit (p ∷ ps)))
      (concat-chunks fuel (drop column_limit (p ∷ ps)) (omega (arith, length-drop 249 ps)))
    ∙ take-append-drop column_limit (p ∷ ps)

pub concat-make_queries {ℓ} : {A : Type ℓ} (ps : List A) → concat (make_queries ps) ≡ ps
unfolding make_queries
concat-make_queries ps = concat-chunks (length ps) ps (omega arith)

take-map {ℓ κ} :
    {A : Type ℓ} {B : Type κ} (f : A → B) (n : ℕ) (xs : List A)
    → take n (map f xs) ≡ map f (take n xs)
take-map f zero xs = refl
take-map f (suc n) [] = refl
take-map f (suc n) (x ∷ xs) = ap (◌∷◌ (f x)) (take-map f n xs)

drop-map {ℓ κ} :
    {A : Type ℓ} {B : Type κ} (f : A → B) (n : ℕ) (xs : List A)
    → drop n (map f xs) ≡ map f (drop n xs)
drop-map f zero xs = refl
drop-map f (suc n) [] = refl
drop-map f (suc n) (x ∷ xs) = drop-map f n xs

chunks-map {ℓ κ} :
    {A : Type ℓ} {B : Type κ} (f : A → B) (fuel : ℕ) (ps : List A)
    → chunks fuel (map f ps) ≡ map (map f) (chunks fuel ps)
unfolding chunks
chunks-map f zero ps = refl
chunks-map f (suc fuel) [] = refl
chunks-map f (suc fuel) (p ∷ ps) = ap₂ ◌∷◌ (take-map f column_limit (p ∷ ps)) (
    ap (chunks fuel) (drop-map f column_limit (p ∷ ps))
    ∙ chunks-map f fuel (drop column_limit (p ∷ ps)))

pub make_queries-map {ℓ κ} :
    {A : Type ℓ} {B : Type κ} (f : A → B) (ps : List A)
    → make_queries (map f ps) ≡ map (map f) (make_queries ps)
unfolding make_queries
make_queries-map f ps = rw (length-map ps f) (chunks-map f (length ps) ps)

take_all {ℓ} : {A : Type ℓ} (n : ℕ) (xs : List A) → length xs ≤ n → take n xs ≡ xs
take_all zero [] h = refl
take_all zero (x ∷ xs) h = absurd (omega arith)
take_all (suc n) [] h = refl
take_all (suc n) (x ∷ xs) h = ap (◌∷◌ x) (take_all n xs (omega arith))

drop_all {ℓ} : {A : Type ℓ} (n : ℕ) (xs : List A) → length xs ≤ n → drop n xs ≡ []
drop_all zero [] h = refl
drop_all zero (x ∷ xs) h = absurd (omega arith)
drop_all (suc n) [] h = refl
drop_all (suc n) (x ∷ xs) h = drop_all n xs (omega arith)

chunks_nil {ℓ} : {A : Type ℓ} (fuel : ℕ) → chunks {A = A} fuel [] ≡ []
unfolding chunks
chunks_nil zero = refl
chunks_nil (suc fuel) = refl

pub make_queries_nil {ℓ} : {A : Type ℓ} → make_queries {A = A} [] ≡ []
unfolding make_queries
make_queries_nil = chunks_nil 0

pub make_queries_single {ℓ} :
    {A : Type ℓ} (p : A) (ps : List A)
    → length (p ∷ ps) ≤ column_limit
    → make_queries (p ∷ ps) ≡ (p ∷ ps) ∷ []
unfolding make_queries chunks
make_queries_single p ps h =
    ap₂ ◌∷◌ (take_all column_limit (p ∷ ps) h)
      (ap (chunks (length ps)) (drop_all column_limit (p ∷ ps) h) ∙ chunks_nil (length ps))
