-- ===== src/Definition/Tests.antt =====
-- src/engine/engine.cpp: definitions of contacts, whose schema has one detail and one base definition.
use qtcontacts_tracker.Base.{
  ℕ, false, ◌&&◌, if◌then◌else◌, Text, same_text, codes, List, [], ◌∷◌, some, text_eq, ◌≡◌, true,
  ◌↔◌,
}
use qtcontacts_tracker.Request.{is_no_error}
use qtcontacts_tracker.Definition.{
  Definition, Schema, Custom, detail_definitions, detail_definition, save_detail_definition,
}
use qtcontacts_tracker.Definition.Store.{Reach, by_name, detail_definition-detail_definitions}
use qtcontacts_tracker.Definition.Changes.{seen, IsFree, save_detail_definition_lem}

abbrev definition : Text → ℕ → Definition
definition name content = record { name = name; content = content }

abbrev contact : Text
contact = codes "Contact"

abbrev contact_schema : Schema
contact_schema = record {
  details = record { definition = definition (codes "Name") 1; is_internal = false } ∷ [];
  base_definitions = definition (codes "Name") 2 ∷ definition (codes "Type") 3 ∷ [];
}

abbrev schemas : List (Text × Schema)
schemas = (contact, contact_schema) ∷ []

abbrev game : Definition
game = definition (codes "Game") 4

abbrev custom : Custom
custom = (save_detail_definition schemas game contact []).0

detail_definition-detail_definitions_example :
    detail_definition schemas (codes "Game") contact custom
    ≡ by_name (codes "Game") (detail_definitions schemas contact custom)
detail_definition-detail_definitions_example =
    detail_definition-detail_definitions schemas (codes "Game") contact
      (Reach.saved game contact Reach.here)

save_detail_definition_lem_example :
    let (custom', success, error) = save_detail_definition schemas game contact [] in
    ((success ≡ true) ↔ IsFree schemas game.name contact)
    × (success ≡ is_no_error error)
    × (seen schemas contact (codes "Game") custom' ≡ (
        if success && (same_text contact contact && same_text game.name (codes "Game"))
        then some game
        else seen schemas contact (codes "Game") []))
save_detail_definition_lem_example =
    save_detail_definition_lem schemas game contact [] contact (codes "Game")
