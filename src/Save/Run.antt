-- ===== src/Save/Run.antt =====
-- src/engine/contactsaverequest.cpp: the request on a list of contacts.
--
-- The resolvers are parameters that give the entries of their lookup, or their errors; so are the
-- IRIs made of new UUIDs, by position, and the update that is run for a contact. An IRI that is
-- null is empty. `QMap` is an association list, of which `least` gives the first entry by key.
use qtcontacts_tracker.Base.{
  ℕ, suc, Bool, true, false, not, ◌&&◌, ◌||◌, ltb, ◌==◌, if◌then◌else◌, Text, same_text, List, [],
  ◌∷◌, ◌++◌, Option, none, some, is_empty, length, nat_eq, text_eq, lookup, insert,
}
use qtcontacts_tracker.Request.{
  Request, init, Error, no_error, unspecified_error, does_not_exist_error, is_no_error,
  set_last_error, SparqlError, report_errors, turn_irreversible, Answer, run_query,
}
use qtcontacts_tracker.Save.Details.{Detail, normalize_contact, writeback_thumbnails}

pub record Contact : Type 0 where
  pub contact_type : Text
  pub manager_uri : Text
  pub local_id : ℕ
  pub details : List Detail

-- The request: its contacts, their IRIs, the errors by position, the mask, the number of updates of
-- contacts that exist, the positions for which an update was run, and what triggered the garbage
-- collector.
pub record Saving : Type 0 where
  pub request : Request
  pub contacts : List Contact
  pub contact_iris : List Text
  pub error_map : List (ℕ × Error)
  pub detail_mask : List Text
  pub update_count : ℕ
  pub updated : List ℕ
  pub triggered : Option ℕ

-- The constructor: the contacts and the mask are those of the request.
unfoldable pub start_saving : List Contact → List Text → Saving
unfolding init
start_saving contacts mask = record {
  request = init;
  contacts = contacts;
  contact_iris = [];
  error_map = [];
  detail_mask = mask;
  update_count = 0;
  updated = [];
  triggered = none;
}

pub data Lookup (A : Type 0) : Type 0 where
  lookup_fails : List SparqlError → Lookup A
  looked_up : A → Lookup A

abbrev pub is_foreign : Text → Text → Bool
is_foreign own uri = not (same_text uri own) && not (is_empty uri)

abbrev pub contact_error : ℕ → Error → Saving → Saving
contact_error i e s = record s { error_map = insert i e s.error_map }

-- The ids to look up, by the type of the contact.
unfoldable pub group_ids : Text → List Contact → List (Text × List ℕ) → List (Text × List ℕ)
unfolding lookup insert
group_ids own [] groups = groups
group_ids own (c ∷ cs) groups =
    let id = if is_foreign own c.manager_uri then 0 else c.local_id in
    let ids : List ℕ = elim (lookup c.contact_type groups) [ none ↦ [] | some ids ↦ ids ] in
    group_ids own cs (insert c.contact_type (ids ++ (id ∷ [])) groups)

unfoldable pub cache_iris : List (ℕ × Text) → List (ℕ × Text) → List (ℕ × Text)
unfolding insert
cache_iris [] cache = cache
cache_iris ((id, iri) ∷ entries) cache =
    cache_iris entries (if is_empty iri then cache else insert id iri cache)

-- The loop over the types.
unfoldable pub resolve_groups :
    (Text → List ℕ → Lookup (List (ℕ × Text)))
    → List (Text × List ℕ)
    → List (ℕ × Text)
    → Lookup (List (ℕ × Text))
unfolding cache_iris
resolve_groups resolve [] cache = looked_up cache
resolve_groups resolve ((type, ids) ∷ groups) cache = elim (resolve type ids) [
  | lookup_fails es ↦ lookup_fails es
  | looked_up entries ↦ resolve_groups resolve groups (cache_iris entries cache)
]

module _ (uuid_iri : ℕ → Text) where
  abbrev pub iri_of : List (ℕ × Text) → ℕ → ℕ → Text
  iri_of cache i id =
      if id == 0 then uuid_iri i else elim (lookup id cache) [ none ↦ [] | some iri ↦ iri ]

  -- The loop that gives each contact its IRI, from the position `i` on.
  unfoldable pub collect_iris : List (ℕ × Text) → ℕ → List Contact → Saving → Saving
  unfolding lookup insert
  collect_iris cache i [] s = s
  collect_iris cache i (c ∷ cs) s =
      let iri = iri_of cache i c.local_id in
      let found = record s { contact_iris = s.contact_iris ++ (iri ∷ []) } in
      let missing =
        contact_error i does_not_exist_error
          (record found { request = set_last_error s.request does_not_exist_error }) in
      collect_iris cache (suc i) cs (if is_empty iri then missing else found)

-- The loop of `resolveContactIds` from the position `i` on: the contacts, and the errors.
unfoldable pub assign_ids :
    Text → ℕ → List Contact → List ℕ → List (ℕ × Error) → List Contact × List (ℕ × Error)
unfolding lookup insert
assign_ids own i cs [] errors = (cs, errors)
assign_ids own i [] (id ∷ ids) errors = ([], errors)
assign_ids own i (c ∷ cs) (id ∷ ids) errors =
    let unresolved : List (ℕ × Error) = elim (lookup i errors) [
      | some e ↦ errors
      | none ↦ insert i unspecified_error errors
    ] in
    let rest = assign_ids own (suc i) cs ids (if id == 0 then unresolved else errors) in
    ((if id == 0 then c else record c { manager_uri = own; local_id = id }) ∷ rest.0, rest.1)

-- The value at the least key.
unfoldable pub least : ℕ → Error → List (ℕ × Error) → Error
least k e [] = e
least k e ((j, e') ∷ m) = if ltb j k then least j e' m else least k e m

abbrev pub first_error : List (ℕ × Error) → Error
first_error [] = no_error
first_error ((k, e) ∷ m) = least k e m

-- The end of `run`: the error that is reported, and the garbage collector.
unfoldable pub report_result : Saving → Saving
unfolding least
report_result s =
    let r =
      if is_no_error s.request.last_error && not (is_empty s.error_map)
      then set_last_error s.request (first_error s.error_map)
      else s.request in
    record s { request = r; triggered = if ltb 0 s.update_count then some s.update_count else none }

-- The parameters: the engine's manager, its changes of details, files, and the database.
pub record Engine : Type 0 where
  pub manager_uri : Text
  pub compatible : List Detail → List Detail × Error
  pub label : List Detail → List Detail
  pub write_thumbnail : Text → Text × Bool
  pub file_url : Text → Text
  pub valid : Bool
  pub update : ℕ → Text → List Text → List Detail → Answer (Unit {0})
  pub resolve : Text → List ℕ → Lookup (List (ℕ × Text))
  pub uuid_iri : ℕ → Text
  pub resolve_ids : List Text → Lookup (List ℕ)

module _ (engine : Engine) where
  unfoldable pub resolve_contact_iris : Saving → Saving × Bool
  unfolding resolve_groups group_ids collect_iris
  resolve_contact_iris s =
      elim (resolve_groups engine.resolve (group_ids engine.manager_uri s.contacts []) []) [
        | lookup_fails es ↦ (record s { request = report_errors s.request es }, false)
        | looked_up cache ↦
            let s' = collect_iris engine.uuid_iri cache 0 s.contacts s in
            if length s'.contacts == length s'.contact_iris
            then (s', true)
            else (record s' { request = set_last_error s'.request unspecified_error }, false)
      ]

  -- The update of the contact at a position.
  unfoldable pub run_update : ℕ → Text → Contact → List Detail → Saving → Saving
  unfolding run_query insert
  run_update i iri c details s =
      let (r, result) =
        run_query s.request engine.valid (engine.update i iri s.detail_mask details) in
      let s' = record s {
        request = r;
        update_count = if c.local_id == 0 then s.update_count else suc s.update_count;
        updated = s.updated ++ (i ∷ []);
      } in
      elim result [ none ↦ contact_error i r.last_error s' | some x ↦ s' ]

  -- One turn of the loop over the contacts: the contact is changed in place.
  unfoldable pub save_one : ℕ → Text → Contact → Saving → Saving × Contact
  unfolding normalize_contact writeback_thumbnails run_update
  save_one i iri c s =
      if is_empty iri
      then (s, c)
      else (if is_foreign engine.manager_uri c.manager_uri
          then (contact_error i does_not_exist_error s, c)
          else (let is_new = c.local_id == 0 in
              let (ds, e) =
                normalize_contact engine.compatible engine.label is_new s.detail_mask c.details in
              let w =
                writeback_thumbnails engine.write_thumbnail engine.file_url is_new s.detail_mask
                  ds in
              let s' = record s { detail_mask = w.mask } in
              if not (is_no_error e)
              then (contact_error i e s, record c { details = ds })
              else (if not (is_no_error w.error)
                  then (contact_error i w.error s', record c { details = w.details })
                  else (run_update i iri c w.details s', record c { details = w.details }))))

  unfoldable pub save_loop : ℕ → List Contact → List Text → Saving → Saving × List Contact
  unfolding save_one
  save_loop i [] iris s = (s, [])
  save_loop i (c ∷ cs) [] s = (s, c ∷ cs)
  save_loop i (c ∷ cs) (iri ∷ iris) s =
      let (s', c') = save_one i iri c s in
      let rest = save_loop (suc i) cs iris s' in (rest.0, c' ∷ rest.1)

  -- The rest of `run` after the loop: `resolveContactIds`, and the report.
  unfoldable pub finish_saving : Saving → Saving
  unfolding assign_ids report_result
  finish_saving s = elim (engine.resolve_ids s.contact_iris) [
    | lookup_fails es ↦ record s { request = report_errors s.request es }
    | looked_up ids ↦
        let (cs, errors) = assign_ids engine.manager_uri 0 s.contacts ids s.error_map in
        report_result (record s { contacts = cs; error_map = errors })
  ]

  unfoldable pub save_contacts : Saving → Saving
  unfolding save_loop finish_saving
  save_contacts s =
      let (s', cs) = save_loop 0 s.contacts s.contact_iris s in
      finish_saving (record s' { contacts = cs })

  unfoldable pub run : Saving → Saving
  unfolding turn_irreversible resolve_contact_iris save_contacts
  run s =
      let (r, go) = turn_irreversible s.request in
      let s₁ = record s { request = r } in
      let (s₂, resolved) = resolve_contact_iris s₁ in
      if not go || is_empty s.contacts
      then s₁
      else (if not resolved
          then s₂
          else (if not engine.valid
              then record s₂ { request = set_last_error s₂.request unspecified_error }
              else save_contacts s₂))
