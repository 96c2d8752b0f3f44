-- ===== src/Parameters/Override.antt =====
-- src/engine/engine.cpp: which of two values of a parameter decides.
use qtcontacts_tracker.Base.{
  Bool, true, false, if◌then◌else◌, Text, same_text, same_text_iff, List, [], ◌∷◌, ◌++◌, Option,
  ◌≡◌, refl, sym, ap, ◌∙◌, ◌⊎◌, inl, inr, Bool-cases, arith,
}
use mathlib.Core.Path.{subst}
use qtcontacts_tracker.Parameters.{
  ℤ, Parameters, insert_multi, unite, apply, apply_all, parse, init,
}

-- The values of a key, from the newest to the oldest.
abbrev pub values : Text → List (Text × Text) → List Text
values k [] = []
values k ((j, w) ∷ m) = let rest = values k m in if same_text j k then w ∷ rest else rest

-- A setting after the values of its key, in their order.
abbrev pub replay {ℓ} : {A : Type ℓ} → (A → Text → A) → A → List Text → A
replay step a [] = a
replay step a (t ∷ ts) = replay step (step a t) ts

pub replay-if {ℓ} :
    {A : Type ℓ} (step : A → Text → A) (b : Bool) (a : A) (t : Text) (ts : List Text)
    → replay step (if b then step a t else a) ts ≡ replay step a (if b then t ∷ ts else ts)
replay-if step true a t ts = refl
replay-if step false a t ts = refl

abbrev pub replaced {ℓ} : {A : Type ℓ} → (Text → A) → A → Text → A
replaced read a text = read text

values-insert_multi :
    (k j v : Text) (m : List (Text × Text))
    → values k (insert_multi j v m) ≡ (if same_text j k then v ∷ values k m else values k m)
unfolding insert_multi
values-insert_multi k j v [] = refl
values-insert_multi k j v ((i, w) ∷ m) =
    ground
      (arith, same_text_iff i j, same_text_iff i k, same_text_iff j k, values-insert_multi k j v m)

-- The values of the manager come after those of the other map.
pub values-unite :
    (k : Text) (m os : List (Text × Text)) → values k (unite m os) ≡ values k os ++ values k m
unfolding unite
values-unite k m [] = refl
values-unite k m ((j, v) ∷ os) =
    ground (arith, values-insert_multi k j v (unite m os), values-unite k m os)

key_cases : (key name : Text) → (key ≡ name) ⊎ (same_text key name ≡ false)
key_cases key name = elim (Bool-cases (same_text key name)) [
  | inl equal ↦ inl ((same_text_iff key name).0 equal)
  | inr other ↦ inr other
]

module _ (to_int : Text → Option ℤ) (to_bool : Text → Bool) where
  -- A setting that only the parameter of one name changes.
  pub record Follows {ℓ} {A : Type ℓ} (get : Parameters → A) (name : Text) (step : A → Text → A)
      : Type ℓ where
    pub follow :
        (key text : Text) (p : Parameters)
        → get (apply to_int to_bool key text p)
          ≡ (if same_text key name then step (get p) text else get p)

  pub follows {ℓ} :
      {A : Type ℓ} (get : Parameters → A) (name : Text) (step : A → Text → A)
      → same_text name name ≡ true
      → ((text : Text) (p : Parameters)
          → get (apply to_int to_bool name text p) ≡ step (get p) text)
      → ((key text : Text) (p : Parameters)
          → same_text key name ≡ false
          → get (apply to_int to_bool key text p) ≡ get p)
      → Follows get name step
  follows get name step same at_name elsewhere = record {
    follow = λ key text p. elim (key_cases key name) [
      | inl is ↦
          subst
            (λ k.
              get (apply to_int to_bool k text p)
              ≡ (if same_text k name then step (get p) text else get p))
            (sym is) (at_name text p ∙ sym (ap (λ b. if b then step (get p) text else get p) same))
      | inr other ↦
          elsewhere key text p other ∙ sym (ap (λ b. if b then step (get p) text else get p) other)
    ];
  }

  pub apply_all-Follows {ℓ} :
      {A : Type ℓ} (get : Parameters → A) (name : Text) (step : A → Text → A)
      → Follows get name step
      → (m : List (Text × Text)) (p : Parameters)
      → get (apply_all to_int to_bool m p) ≡ replay step (get p) (values name m)
  unfolding apply_all
  apply_all-Follows get name step follow [] p = refl
  apply_all-Follows get name step follow ((key, text) ∷ m) p =
      apply_all-Follows get name step follow m (apply to_int to_bool key text p)
      ∙ ap (λ a. replay step a (values name m)) (follow.follow key text p)
      ∙ replay-if step (same_text key name) (get p) text (values name m)

  -- Values of the environment come first.
  pub parse-Follows {ℓ} :
      {A : Type ℓ} {get : Parameters → A} {name : Text} {step : A → Text → A}
      → Follows get name step
      → (manager environment : List (Text × Text)) (guid : Text)
      → get (parse to_int to_bool manager environment guid)
        ≡ replay step (get (init guid)) (values name environment ++ values name manager)
  unfolding parse
  parse-Follows {get} {name} {step} follow manager environment guid =
      apply_all-Follows get name step follow (unite manager environment) (init guid)
      ∙ ap (replay step (get (init guid))) (values-unite name manager environment)
