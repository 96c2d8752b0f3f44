-- ===== src/Base/Equality.antt =====
-- Equality tests as an interface: what `operator==` and `qHash` give a Qt container.
use Prim.Native.Nat.{ℕ}
use mathlib.Core.Path.{◌≡◌}
use mathlib.Core.Logic.{◌↔◌}
use mathlib.Core.Bool.{Bool, true, false, ◌&&◌}
use mathlib.Core.List.{List, [], ◌∷◌}
use native.Mathlib.Omega.{arith}
use qtcontacts_tracker.Base.Tests.{◌==◌ as nat_beq, ==_iff}

pub record Eq {ℓ} (A : Type ℓ) : Type ℓ where
  pub beq : A → A → Bool
  pub beq_iff : (a b : A) → (beq a b ≡ true) ↔ (a ≡ b)

instance abbrev pub nat_eq : Eq ℕ
nat_eq = record { beq = nat_beq; beq_iff = ==_iff }

-- Lists compare element by element.
abbrev pub list_beq {ℓ} : {A : Type ℓ} → Eq A → List A → List A → Bool
list_beq e [] [] = true
list_beq e [] (y ∷ ys) = false
list_beq e (x ∷ xs) [] = false
list_beq e (x ∷ xs) (y ∷ ys) = e.beq x y && list_beq e xs ys

pub list_beq_iff {ℓ} :
    {A : Type ℓ} (e : Eq A) (xs ys : List A) → (list_beq e xs ys ≡ true) ↔ (xs ≡ ys)
list_beq_iff e [] [] = ground arith
list_beq_iff e [] (y ∷ ys) = ground arith
list_beq_iff e (x ∷ xs) [] = ground arith
list_beq_iff e (x ∷ xs) (y ∷ ys) = ground (arith, e.beq_iff x y, list_beq_iff e xs ys)

-- Text is a list of UTF-16 code units, as in `QString`.
abbrev pub Text : Type 0
Text = List ℕ

instance abbrev pub text_eq : Eq Text
text_eq = record { beq = list_beq nat_eq; beq_iff = list_beq_iff nat_eq }

abbrev pub same_text : Text → Text → Bool
same_text a b = list_beq nat_eq a b

pub same_text_iff : (a b : Text) → (same_text a b ≡ true) ↔ (a ≡ b)
same_text_iff a b = list_beq_iff nat_eq a b
