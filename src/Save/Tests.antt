-- ===== src/Save/Tests.antt =====
-- src/engine/contactsaverequest.cpp: a save request on concrete contacts.
use qtcontacts_tracker.Base.{
  ℕ, Bool, true, false, not, if◌then◌else◌, Text, codes, ◌==◌, List, [], ◌∷◌, ◌++◌, some, is_empty,
  length, select, map, ◌≡◌, refl, ◌||◌, lookup, insert, nat_eq, text_eq, length-map,
}
use qtcontacts_tracker.Request.{
  Error, no_error, invalid_detail_error, is_no_error, answers, init, turn_irreversible, run_query,
}
use qtcontacts_tracker.Save.Details.{
  Detail, thumbnail_name, avatar_name, is_unknown_detail, find_account_detail_uris, first_with,
  is_own_thumbnail, is_own_avatar, is_linked_detail, normalize_contact, writeback_thumbnails,
  save_thumbnail, save_avatar, verify_links, verify_uris, details_by_uri,
}
use qtcontacts_tracker.Save.Run.{
  Contact, looked_up, group_ids, resolve_groups, cache_iris, collect_iris, start_saving, Engine,
  run, resolve_contact_iris, save_contacts, save_loop, save_one, run_update, finish_saving,
  assign_ids, report_result, least,
}
use qtcontacts_tracker.Save.Thumbnails.{
  links_known, normalize_contact_lem, writeback_thumbnails_lem,
}
use qtcontacts_tracker.Save.Settled.{AllSettled}
use qtcontacts_tracker.Save.Report.{run-start_saving}
use qtcontacts_tracker.Save.Updated.{Sublist, own_positions, run-Sublist}

abbrev own : Text
own = codes "tracker"

abbrev detail : Text → Text → List Text → Text → Detail
detail name uri links value = record {
  definition_name = name;
  detail_uri = uri;
  linked_detail_uris = links;
  value = value;
}

abbrev thumbnail : Detail
thumbnail = detail thumbnail_name [] [] (5 ∷ [])

abbrev account : Detail
account = detail (codes "OnlineAccount") (codes "telepathy:a") [] []

abbrev account_avatar : Detail
account_avatar = detail avatar_name [] (codes "telepathy:a" ∷ []) (6 ∷ [])

abbrev details : List Detail
details = account ∷ account_avatar ∷ thumbnail ∷ []

abbrev compatible : List Detail → List Detail × Error
compatible ds = (ds, no_error)

abbrev label : List Detail → List Detail
label ds = ds

abbrev write_thumbnail : Text → Text × Bool
write_thumbnail image = (image ++ image, false)

abbrev file_url : Text → Text
file_url file = 47 ∷ file

normalize_contact_lem_example : normalize_contact compatible label true [] details ≡ (
    if true
    then (details, (if links_known details then no_error else invalid_detail_error))
    else (details, no_error))
normalize_contact_lem_example = normalize_contact_lem compatible label true [] details

writeback_thumbnails_lem_example :
    let accounts = find_account_detail_uris details in
    let w = writeback_thumbnails write_thumbnail file_url true [] details in
    (avatar : Detail) × (first_with (is_own_avatar accounts) w.details ≡ some avatar)
    × (avatar.value ≡ file_url (5 ∷ 5 ∷ []))
    × (select (λ d. not (is_own_avatar accounts d)) w.details
        ≡ select (λ d. not (is_own_avatar accounts d)) details)
    × (w.error ≡ no_error)
unfolding find_account_detail_uris is_own_thumbnail is_linked_detail is_unknown_detail
writeback_thumbnails_lem_example =
    writeback_thumbnails_lem write_thumbnail file_url true [] details thumbnail refl refl refl

abbrev iri_of_id : ℕ → ℕ × Text
iri_of_id id = (id, (if id == 9 || id == 0 then [] else 105 ∷ id ∷ []))

abbrev id_of_iri : Text → ℕ
id_of_iri [] = 0
id_of_iri (c ∷ cs) = 7

abbrev engine : Engine
engine = record {
  manager_uri = own;
  compatible = compatible;
  label = label;
  write_thumbnail = write_thumbnail;
  file_url = file_url;
  valid = true;
  update = λ i iri m ds. answers tt;
  resolve = λ type ids. looked_up (map iri_of_id ids);
  uuid_iri = λ i. 117 ∷ i ∷ [];
  resolve_ids = λ iris. looked_up (map id_of_iri iris);
}

abbrev contact : Text → ℕ → Contact
contact uri id = record {
  contact_type = codes "Contact";
  manager_uri = uri;
  local_id = id;
  details = details;
}

-- A contact that exists, one that does not, one of another manager, and a new one.
abbrev contacts : List Contact
contacts = contact own 4 ∷ contact own 9 ∷ contact (codes "memory") 0 ∷ contact [] 0 ∷ []

abbrev cache : List (ℕ × Text)
cache = (4, 105 ∷ 4 ∷ []) ∷ []

found : resolve_groups engine.resolve (group_ids own contacts []) [] ≡ looked_up cache
unfolding resolve_groups group_ids cache_iris lookup insert
found = refl

run-start_saving_example :
    let s = run engine (start_saving contacts []) in
    (length s.contacts ≡ 4)
    × AllSettled own s.error_map 0 s.contacts
    × (is_no_error s.request.last_error ≡ is_empty s.error_map)
run-start_saving_example =
    run-start_saving engine contacts [] cache refl found
      (λ iris. (map id_of_iri iris, refl, length-map iris id_of_iri))

run-Sublist_example :
    Sublist ((run engine (start_saving contacts [])).updated) (own_positions own 0 contacts)
run-Sublist_example = run-Sublist engine contacts []

updates : (run engine (start_saving contacts [])).updated ≡ 0 ∷ 3 ∷ []
unfolding run start_saving init turn_irreversible resolve_contact_iris resolve_groups group_ids
    cache_iris collect_iris save_contacts save_loop save_one run_update finish_saving assign_ids
    report_result least lookup insert run_query normalize_contact verify_links verify_uris
    details_by_uri writeback_thumbnails save_thumbnail save_avatar find_account_detail_uris
    is_own_thumbnail is_own_avatar is_linked_detail is_unknown_detail
updates = refl
