-- ===== src/Parameters/Environment.antt =====
-- src/engine/engine.cpp: the variable with the parameters, read back.
use qtcontacts_tracker.Base.{
  ℕ, Bool, true, false, ◌==◌, if◌then◌else◌, Text, same_text, List, [], ◌∷◌, ◌++◌, Option, none,
  some, is_empty, or_else, text_eq, lookup, lookup-insert, map, All, ◌≡◌, refl, ap, ◌∙◌, insert,
  arith,
}
use qtcontacts_tracker.Parameters.{split, cut, without, read_token, read_tokens, read_environment}

-- No character of the text is `c`.
abbrev pub lacks : ℕ → Text → Bool
lacks c [] = true
lacks c (x ∷ t) = let rest = lacks c t in if x == c then false else rest

abbrev pub print_entry : Text × Text → Text
print_entry (key, value) = key ++ 61 ∷ value

-- Entries with semicolons between them.
abbrev pub print : List (Text × Text) → Text
print [] = []
print (e ∷ []) = print_entry e
print (e ∷ f ∷ es) = print_entry e ++ 59 ∷ print (f ∷ es)

without-lacks : (c : ℕ) (t : Text) → lacks c t ≡ true → without c t ≡ t
unfolding without
without-lacks c [] h = refl
without-lacks c (x ∷ t) h = ground (arith, h, without-lacks c t)

lacks-append : (c : ℕ) (s t : Text) → lacks c s ≡ true → lacks c t ≡ true → lacks c (s ++ t) ≡ true
lacks-append c [] t hs ht = ht
lacks-append c (x ∷ s) t hs ht = ground (arith, hs, ht, lacks-append c s t)

cut-entry : (c : ℕ) (s t : Text) → lacks c s ≡ true → cut c (s ++ c ∷ t) ≡ some (s, t)
unfolding cut
cut-entry c [] t h = ground arith
cut-entry c (x ∷ s) t h = ground (arith, h, cut-entry c s t)

split-lacks : (c : ℕ) (t : Text) → lacks c t ≡ true → split c t ≡ t ∷ []
unfolding split
split-lacks c [] h = refl
split-lacks c (x ∷ t) h = ground (arith, h, split-lacks c t)

split-append : (c : ℕ) (s t : Text) → lacks c s ≡ true → split c (s ++ c ∷ t) ≡ s ∷ split c t
unfolding split
split-append c [] t h = ground arith
split-append c (x ∷ s) t h = ground (arith, h, split-append c s t)

-- The value of the last entry for a key.
abbrev pub latest : Text → List (Text × Text) → Option Text
latest k [] = none
latest k ((j, v) ∷ m) = or_else (latest k m) (if same_text j k then some v else none)

or_else-if :
    (l : Option Text) (b : Bool) (v : Text) (o : Option Text)
    → or_else l (if b then some v else o) ≡ or_else (or_else l (if b then some v else none)) o
or_else-if l b v o = ground arith

or_else-none : (l : Option Text) → or_else l none ≡ l
or_else-none l = ground arith

module _ (trimmed : Text → Text) where
  -- What can be written: no separators, and nothing for the reader to trim.
  pub record IsEntry (key value : Text) : Type 0 where
    pub has_key : is_empty key ≡ false
    pub key_spaces : lacks 32 key ≡ true
    pub key_semicolons : lacks 59 key ≡ true
    pub key_equals : lacks 61 key ≡ true
    pub value_spaces : lacks 32 value ≡ true
    pub value_semicolons : lacks 59 value ≡ true
    pub key_trimmed : trimmed key ≡ key
    pub value_trimmed : trimmed value ≡ value

  print_entry-lacks :
      (c : ℕ) (key value : Text)
      → (61 == c) ≡ false
      → lacks c key ≡ true
      → lacks c value ≡ true
      → lacks c (print_entry (key, value)) ≡ true
  print_entry-lacks c key value other hk hv =
      lacks-append c key (61 ∷ value) hk (ground (arith, other, hv))

  read_token-entry :
      (key value : Text) (found : List (Text × Text))
      → IsEntry key value
      → read_token trimmed (print_entry (key, value)) found ≡ insert key value found
  unfolding read_token
  read_token-entry key value found e =
      ground (arith, cut-entry 61 key value e.key_equals, e.key_trimmed, e.value_trimmed, e.has_key)

  lookup-read_tokens :
      (k : Text) (m found : List (Text × Text))
      → All (λ e. IsEntry e.0 e.1) m
      → lookup k (read_tokens trimmed (map print_entry m) found)
        ≡ or_else (latest k m) (lookup k found)
  unfolding read_tokens
  lookup-read_tokens k [] found h = refl
  lookup-read_tokens k ((key, value) ∷ m) found h =
      lookup-read_tokens k m (read_token trimmed (print_entry (key, value)) found) h.1
      ∙ ap (λ f. or_else (latest k m) (lookup k f)) (read_token-entry key value found h.0)
      ∙ ap (or_else (latest k m)) (lookup-insert key k value found)
      ∙ or_else-if (latest k m) (same_text key k) value (lookup k found)

  without-print :
      (m : List (Text × Text)) → All (λ e. IsEntry e.0 e.1) m → lacks 32 (print m) ≡ true
  without-print [] h = refl
  without-print ((key, value) ∷ []) (h, _) =
      print_entry-lacks 32 key value refl h.key_spaces h.value_spaces
  without-print ((key, value) ∷ f ∷ m) (h, hs) =
      lacks-append 32 (print_entry (key, value)) (59 ∷ print (f ∷ m))
        (print_entry-lacks 32 key value refl h.key_spaces h.value_spaces) (without-print (f ∷ m) hs)

  split-print :
      (e : Text × Text) (m : List (Text × Text))
      → All (λ e. IsEntry e.0 e.1) (e ∷ m)
      → split 59 (print (e ∷ m)) ≡ map print_entry (e ∷ m)
  split-print (key, value) [] (h, _) =
      split-lacks 59 (print_entry (key, value))
        (print_entry-lacks 59 key value refl h.key_semicolons h.value_semicolons)
  split-print (key, value) (f ∷ m) (h, hs) =
      split-append 59 (print_entry (key, value)) (print (f ∷ m))
        (print_entry-lacks 59 key value refl h.key_semicolons h.value_semicolons)
      ∙ ap (λ r. print_entry (key, value) ∷ r) (split-print f m hs)

  -- Entries written with semicolons between them are read back: a key has the value of its last
  -- entry, and other keys have none. The conditions: at least one entry is written; its key is not
  -- empty and has no equals sign; neither its key nor its value has a space, all of which the
  -- reader removes, or a semicolon, and trimming changes neither.
  pub read_environment-print :
      (e : Text × Text) (m : List (Text × Text))
      → All (λ e. IsEntry e.0 e.1) (e ∷ m)
      → (k : Text) → lookup k (read_environment trimmed (print (e ∷ m))) ≡ latest k (e ∷ m)
  unfolding read_environment lookup
  read_environment-print e m h k =
      ap (λ t. lookup k (read_tokens trimmed (split 59 t) []))
        (without-lacks 32 (print (e ∷ m)) (without-print (e ∷ m) h))
      ∙ ap (λ ts. lookup k (read_tokens trimmed ts [])) (split-print e m h)
      ∙ lookup-read_tokens k (e ∷ m) [] h
      ∙ or_else-none (latest k (e ∷ m))
