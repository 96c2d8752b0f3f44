-- ===== src/Parameters.antt =====
-- src/engine/engine.cpp and src/dao/contactdetailschema.cpp: the parameters of an engine, and the
-- schemas that it makes of them.
--
-- What Qt makes of a text is a parameter: `to_int`, `to_bool`, trimming and comparison without case.
-- A `QMap` lists the values of a key from the newest to the oldest; the order of different keys is
-- that of their insertion.
use qtcontacts_tracker.Base.{
  ℕ, zero, suc, Bool, true, false, not, ◌&&◌, ◌||◌, ◌==◌, any, if◌then◌else◌, Text, same_text,
  codes, List, [], ◌∷◌, ◌++◌, Option, none, some, is_empty, text_eq, insert,
}
pub mod Environment
pub mod Override
pub mod Fields
mod Tests

pub data ℤ : Type 0 where
  pos : ℕ → ℤ
  negsuc : ℕ → ℤ

pub record AvatarTypes : Type 0 where
  pub personal : Bool
  pub online : Bool
  pub social : Bool

-- `m_debugFlags`, and the option `PrettyPrint` of both kinds of queries.
pub record DebugFlags : Type 0 where
  pub show_selects : Bool
  pub show_updates : Bool
  pub show_models : Bool
  pub show_notes : Bool
  pub show_timing : Bool
  pub show_signals : Bool
  pub skip_security_checks : Bool
  pub skip_nagging : Bool
  pub pretty_selects : Bool
  pub pretty_updates : Bool

-- The members that the loop over the parameters sets, and its local variables.
pub record Parameters : Type 0 where
  pub request_timeout : ℤ
  pub tracker_timeout : ℤ
  pub coalescing_delay : ℤ
  pub gc_limit : ℤ
  pub sync_target : Text
  pub weak_sync_targets : List Text
  pub mangle_all_sync_targets : Bool
  pub omit_presence_changes : Bool
  pub debug_flags : DebugFlags
  pub avatar_types : AvatarTypes
  pub convert_numbers_to_latin : Bool
  pub writeback_presence : Bool
  pub guid_algorithm_name : Text
  pub contact_types : List Text

-- `QString::split` with its parts, empty ones included: there is always one.
unfoldable pub split : ℕ → Text → List Text
split c [] = [] ∷ []
split c (x ∷ t) =
    let rest = split c t in
    if x == c
    then [] ∷ rest
    else (elim rest [ [] ↦ (x ∷ []) ∷ [] | part ∷ parts ↦ (x ∷ part) ∷ parts ])

unfoldable pub not_empty : List Text → List Text
not_empty [] = []
not_empty (t ∷ ts) = if is_empty t then not_empty ts else t ∷ not_empty ts

-- `QString::remove`.
unfoldable pub without : ℕ → Text → Text
without c [] = []
without c (x ∷ t) = if x == c then without c t else x ∷ without c t

-- `QString::left` and `QString::mid` around the first `c`, where there is one.
unfoldable pub cut : ℕ → Text → Option (Text × Text)
cut c [] = none
cut c (x ∷ t) =
    let rest = cut c t in
    if x == c
    then some ([], t)
    else (elim rest [ none ↦ none | some (key, value) ↦ some (x ∷ key, value) ])

abbrev pub contains : List Text → Text → Bool
contains ts t = any (λ s. same_text s t) ts

-- `values.toSet()` of a list that commas separate, as far as it is asked what it contains.
abbrev pub lists : Text → Text → Bool
lists text name = contains (split 44 text) name

abbrev pub default_gc_limit : ℤ
default_gc_limit = pos 100

abbrev pub no_debug : DebugFlags
no_debug = record {
  show_selects = false;
  show_updates = false;
  show_models = false;
  show_notes = false;
  show_timing = false;
  show_signals = false;
  skip_security_checks = false;
  skip_nagging = false;
  pretty_selects = false;
  pretty_updates = false;
}

-- The members and variables before the loop; `name` is the setting's GUID algorithm.
unfoldable pub init : Text → Parameters
init name = record {
  request_timeout = pos 0;
  tracker_timeout = pos 30000;
  coalescing_delay = pos 10;
  gc_limit = default_gc_limit;
  sync_target = codes "addressbook";
  weak_sync_targets = codes "telepathy" ∷ [];
  mangle_all_sync_targets = false;
  omit_presence_changes = false;
  debug_flags = no_debug;
  avatar_types = record { personal = true; online = true; social = false };
  convert_numbers_to_latin = false;
  writeback_presence = false;
  guid_algorithm_name = name;
  contact_types = [];
}

unfoldable pub parse_debug : Text → DebugFlags → DebugFlags
parse_debug text d =
    let all = lists text (codes "all") in
    let queries = all || lists text (codes "queries") in
    let selects = all || lists text (codes "selects") in
    let updates = all || lists text (codes "updates") in
    record {
      show_selects = (d.show_selects || queries) || selects;
      show_updates = (d.show_updates || queries) || updates;
      show_models = d.show_models || (all || lists text (codes "models"));
      show_notes = d.show_notes || (all || lists text (codes "notes"));
      show_timing = d.show_timing || (all || lists text (codes "timing"));
      show_signals = d.show_signals || (all || lists text (codes "signals"));
      skip_security_checks = d.skip_security_checks || (all || lists text (codes "no-sec"));
      skip_nagging = d.skip_nagging || (all || lists text (codes "no-nagging"));
      pretty_selects = d.pretty_selects || selects;
      pretty_updates = d.pretty_updates || updates;
    }

unfoldable pub parse_avatar_types : Text → AvatarTypes
parse_avatar_types text =
    if lists text (codes "all")
    then record { personal = true; online = true; social = true }
    else record {
      personal = lists text (codes "personal");
      online = lists text (codes "online");
      social = lists text (codes "social");
    }

-- `QMap::unite`: `insertMulti` of each entry of the other map, the last one first.
unfoldable pub insert_multi : Text → Text → List (Text × Text) → List (Text × Text)
insert_multi k v [] = (k, v) ∷ []
insert_multi k v ((j, w) ∷ m) =
    let rest = insert_multi k v m in if same_text j k then (k, v) ∷ (j, w) ∷ m else (j, w) ∷ rest

unfoldable pub unite : List (Text × Text) → List (Text × Text) → List (Text × Text)
unfolding insert_multi
unite m [] = m
unite m ((k, v) ∷ os) = insert_multi k v (unite m os)

module _ (trimmed : Text → Text) where
  -- A token of the variable, and the entry that it adds.
  unfoldable pub read_token : Text → List (Text × Text) → List (Text × Text)
  unfolding cut insert
  read_token token found =
      let entry : Text × Text = elim (cut 61 token) [
        | none ↦ (trimmed token, [])
        | some (key, value) ↦ (trimmed key, trimmed value)
      ] in
      if is_empty entry.0 then found else insert entry.0 entry.1 found

  unfoldable pub read_tokens : List Text → List (Text × Text) → List (Text × Text)
  unfolding read_token
  read_tokens [] found = found
  read_tokens (t ∷ ts) found = read_tokens ts (read_token t found)

  -- The variable `QT_CONTACTS_TRACKER`.
  unfoldable pub read_environment : Text → List (Text × Text)
  unfolding read_tokens split without
  read_environment variable = read_tokens (split 59 (without 32 variable)) []

unfoldable pub parse_weak_sync_targets : Text → Parameters → Parameters
unfolding split not_empty
parse_weak_sync_targets text p =
    let targets = not_empty (split 44 text) in
    if contains targets (codes "all")
    then record p { weak_sync_targets = []; mangle_all_sync_targets = true }
    else record p { weak_sync_targets = targets }

module _ (to_int : Text → Option ℤ) where
  unfoldable pub parse_parameter : ℤ → Text → ℤ
  parse_parameter result text = elim (to_int text) [ some value ↦ value | none ↦ result ]

  -- `toInt` is 0 for a text that is not a number.
  unfoldable pub parse_gc_limit : Text → ℤ
  parse_gc_limit text = elim (to_int text) [
    | none ↦ default_gc_limit
    | some (negsuc n) ↦ default_gc_limit
    | some (pos zero) ↦ default_gc_limit
    | some (pos (suc n)) ↦ pos (suc n)
  ]

module _ (to_int : Text → Option ℤ) (to_bool : Text → Bool) where
  -- One pass of the loop. The keys that only cause a warning, or nothing, change nothing.
  unfoldable pub apply : Text → Text → Parameters → Parameters
  unfolding split parse_parameter parse_gc_limit parse_weak_sync_targets parse_debug
      parse_avatar_types
  apply key text p =
      if same_text key (codes "timeout")
      then record p { request_timeout = parse_parameter to_int p.request_timeout text }
      else if same_text key (codes "tracker-timeout")
      then record p { tracker_timeout = parse_parameter to_int p.tracker_timeout text }
      else if same_text key (codes "coalescing-delay")
      then record p { coalescing_delay = parse_parameter to_int p.coalescing_delay text }
      else if same_text key (codes "writeback")
      then record p {
        writeback_presence =
            p.writeback_presence || (lists text (codes "all") || lists text (codes "presence"));
      }
      else if same_text key (codes "debug")
      then record p { debug_flags = parse_debug text p.debug_flags }
      else if same_text key (codes "contact-types")
      then record p { contact_types = split 44 text }
      else if same_text key (codes "avatar-types")
      then record p { avatar_types = parse_avatar_types text }
      else if same_text key (codes "gc-limit")
      then record p { gc_limit = parse_gc_limit to_int text }
      else if same_text key (codes "guid-algorithm")
      then record p { guid_algorithm_name = text }
      else if same_text key (codes "default-sync-target")
      then record p { sync_target = text }
      else if same_text key (codes "weak-sync-targets")
      then parse_weak_sync_targets text p
      else if same_text key (codes "native-numbers")
      then record p { convert_numbers_to_latin = not (is_empty text || to_bool text) }
      else if same_text key (codes "omit-presence-changes")
      then record p { omit_presence_changes = true }
      else p

  unfoldable pub apply_all : List (Text × Text) → Parameters → Parameters
  unfolding apply
  apply_all [] p = p
  apply_all ((key, text) ∷ m) p = apply_all m (apply key text p)

  -- The constructor's loop: the manager's parameters, the environment and the GUID setting.
  unfoldable pub parse : List (Text × Text) → List (Text × Text) → Text → Parameters
  unfolding apply_all unite init
  parse manager environment name = apply_all (unite manager environment) (init name)

-- A detail of a schema with what its constructor is given; the ones that take nothing by name.
pub data Detail : Type 0 where
  avatar : AvatarTypes → Detail
  personal_avatar : Detail
  phone_number : (convert_to_latin : Bool) → Detail
  online_account : (is_read_only : Bool) → Detail
  presence : (is_read_only : Bool) → Detail
  online_avatar : (is_read_only : Bool) → Detail
  social_avatar : (is_read_only : Bool) → Detail
  plain : Text → Detail

-- `QTrackerContactDetailSchemaData`; `definitions` are those that were asked for, kept for later.
pub record Schema : Type 0 where
  pub contact_type : Text
  pub avatar_types : AvatarTypes
  pub write_back_presence : Bool
  pub convert_numbers_to_latin : Bool
  pub details : List Detail
  pub definitions : List Text

abbrev pub optional : Bool → Detail → List Detail
optional b d = if b then d ∷ [] else []

-- The constructor with the details that all types share, then those of the type.
unfoldable pub make_schema : Text → List Detail → AvatarTypes → Schema
make_schema type own avatars = record {
  contact_type = type;
  avatar_types = avatars;
  write_back_presence = false;
  convert_numbers_to_latin = true;
  details =
      (avatar avatars
        ∷ plain (codes "Address")
        ∷ plain (codes "Anniversary")
        ∷ plain (codes "Birthday")
        ∷ plain (codes "EmailAddress")
        ∷ plain (codes "GeoLocation")
        ∷ plain (codes "GlobalPresence")
        ∷ plain (codes "Guid")
        ∷ plain (codes "Note")
        ∷ online_account (not false)
        ∷ phone_number true
        ∷ presence (not false)
        ∷ plain (codes "Relevance")
        ∷ plain (codes "Tag")
        ∷ plain (codes "Timestamp")
        ∷ plain (codes "SyncTarget")
        ∷ plain (codes "Url")
        ∷ [])
      ++ optional avatars.personal personal_avatar
      ++ optional avatars.online (online_avatar (not false))
      ++ optional avatars.social (social_avatar (not false))
      ++ own;
  definitions = [];
}

abbrev pub differs : Bool → Bool → Bool
differs a b = if a then not b else b

unfoldable pub set_write_back_presence : Bool → Schema → Schema
set_write_back_presence setting s =
    if differs setting s.write_back_presence
    then record s { write_back_presence = setting; definitions = [] }
    else s

unfoldable pub set_convert_numbers_to_latin : Bool → Schema → Schema
set_convert_numbers_to_latin setting s =
    if differs setting s.convert_numbers_to_latin
    then record s { convert_numbers_to_latin = setting; definitions = [] }
    else s

abbrev pub person_details : List Detail
person_details =
    plain (codes "Gender")
    ∷ plain (codes "Hobby")
    ∷ plain (codes "Name")
    ∷ plain (codes "Nickname")
    ∷ plain (codes "Organization")
    ∷ plain (codes "Ringtone")
    ∷ []

abbrev pub group_details : List Detail
group_details = plain (codes "Nickname") ∷ plain (codes "Ringtone") ∷ []

-- The setters reach the engine's schemas, since copies share their data.
unfoldable pub set_all : Parameters → List Schema → List Schema
unfolding set_write_back_presence set_convert_numbers_to_latin
set_all p [] = []
set_all p (s ∷ ss) =
    set_write_back_presence p.writeback_presence
      (set_convert_numbers_to_latin p.convert_numbers_to_latin s)
    ∷ set_all p ss

module _ (same_folded : Text → Text → Bool) where
  -- No list means all types.
  abbrev pub wants : List Text → Text → Bool
  wants types type = is_empty types || any (λ t. same_folded t type) types

  unfoldable pub make_schemas : Parameters → List Schema
  unfolding make_schema
  make_schemas p =
      (if wants p.contact_types (codes "Contact")
        then make_schema (codes "Contact") person_details p.avatar_types ∷ []
        else [])
      ++ (if wants p.contact_types (codes "Group")
          then make_schema (codes "Group") group_details p.avatar_types ∷ []
          else [])

  unfoldable pub detail_schemas : Parameters → List Schema
  unfolding make_schemas set_all
  detail_schemas p = set_all p (make_schemas p)

-- An unknown algorithm gives way to the default one.
unfoldable pub guid_algorithm : (Text → Option ℕ) → Text → Option ℕ
guid_algorithm algorithm name = elim (algorithm name) [
  | some a ↦ some a
  | none ↦ algorithm (codes "default")
]
