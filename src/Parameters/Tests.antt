-- ===== src/Parameters/Tests.antt =====
-- src/engine/engine.cpp: parameters of the manager and of the environment, on one engine.
use qtcontacts_tracker.Base.{
  Bool, true, false, Text, same_text, codes, List, [], ◌∷◌, map, if◌then◌else◌, Option, none, some,
  ◌≡◌, refl, lookup, text_eq,
}
use qtcontacts_tracker.Parameters.{
  ℤ, pos, Parameters, parse, read_environment, make_schema, make_schemas, set_all,
  set_write_back_presence, set_convert_numbers_to_latin, detail_schemas,
}
use qtcontacts_tracker.Parameters.Environment.{IsEntry, print, read_environment-print}

-- The only number of these tests.
abbrev to_int : Text → Option ℤ
to_int text = if same_text text (codes "5") then some (pos 5) else none

abbrev to_bool : Text → Bool
to_bool text = same_text text (codes "true")

abbrev manager : List (Text × Text)
manager = (codes "default-sync-target", codes "other") ∷ (codes "gc-limit", codes "five") ∷ []

abbrev environment : List (Text × Text)
environment =
    read_environment (λ t. t)
      (codes "default-sync-target = mine; timeout=5;debug=no-sec,timing;gc-limit=5;;writeback=all")

abbrev parameters : Parameters
parameters = parse to_int to_bool manager environment (codes "default")

given_environment :
    environment
    ≡ (codes "default-sync-target", codes "mine")
      ∷ (codes "timeout", codes "5")
      ∷ (codes "debug", codes "no-sec,timing")
      ∷ (codes "gc-limit", codes "5")
      ∷ (codes "writeback", codes "all")
      ∷ []
unfolding read_environment
given_environment = refl

-- The environment does not override the manager.
given_settings :
    (parameters.sync_target ≡ codes "other")
    × (parameters.request_timeout ≡ pos 5)
    × (parameters.gc_limit ≡ pos 100)
    × (parameters.debug_flags.skip_security_checks ≡ true)
    × (parameters.debug_flags.skip_nagging ≡ false)
    × (parameters.writeback_presence ≡ true)
unfolding read_environment parse
given_settings = (refl, refl, refl, refl, refl, refl)

-- The parameter `writeback` sets a flag of the schema, but not those of its details.
given_schemas :
    (map (λ s. s.write_back_presence) (detail_schemas same_text parameters) ≡ true ∷ true ∷ [])
    × (map (λ s. s.details) (detail_schemas same_text parameters)
        ≡ map (λ s. s.details) (make_schemas same_text parameters))
unfolding read_environment parse detail_schemas make_schemas make_schema set_all
    set_write_back_presence set_convert_numbers_to_latin
given_schemas = (refl, refl)

abbrev target : Text × Text
target = (codes "default-sync-target", codes "mine")

abbrev types : Text × Text
types = (codes "contact-types", codes "Group,Contact")

target-IsEntry : IsEntry (λ t. t) target.0 target.1
target-IsEntry = record {
  has_key = refl;
  key_spaces = refl;
  key_semicolons = refl;
  key_equals = refl;
  value_spaces = refl;
  value_semicolons = refl;
  key_trimmed = refl;
  value_trimmed = refl;
}

types-IsEntry : IsEntry (λ t. t) types.0 types.1
types-IsEntry = record {
  has_key = refl;
  key_spaces = refl;
  key_semicolons = refl;
  key_equals = refl;
  value_spaces = refl;
  value_semicolons = refl;
  key_trimmed = refl;
  value_trimmed = refl;
}

read_environment-print_example :
    lookup (codes "contact-types") (read_environment (λ t. t) (print (target ∷ types ∷ [])))
    ≡ some (codes "Group,Contact")
read_environment-print_example =
    read_environment-print (λ t. t) target (types ∷ []) (target-IsEntry, (types-IsEntry, tt))
      (codes "contact-types")
