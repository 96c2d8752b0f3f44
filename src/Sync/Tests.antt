-- ===== src/Sync/Tests.antt =====
-- src/engine/engine.cpp: synchronous calls that fail to save or to remove.
use qtcontacts_tracker.Base.{ℕ, true, false, List, [], ◌∷◌, some, ◌≡◌, refl}
use qtcontacts_tracker.Request.{no_error, out_of_memory_error}
use qtcontacts_tracker.Dispatch.{
  Start, contact_save_request, init, start_request_impl, sync_task_queue,
}
use qtcontacts_tracker.Sync.{
  Request, Run, timed_out, finished, request_of, Contact, save_contacts, start_run,
}
use qtcontacts_tracker.Sync.Outcomes.{
  contradicts, details_of, heads_of, is_timed_out, save_contacts_lem, save_contacts-refused,
}

abbrev contact : ℕ → ℕ → ℕ → Contact
contact id label details = record { id = id; display_label = label; details = details }

abbrev unsaved : List Contact
unsaved = contact 0 0 7 ∷ contact 0 0 8 ∷ []

-- The second contact could not be saved.
abbrev saved_one : Run Contact
saved_one = finished (record {
  error = out_of_memory_error;
  error_map = (1, out_of_memory_error) ∷ [];
  results = contact 41 5 7 ∷ contact 0 6 8 ∷ [];
})

save_contacts_lem_example :
    (contradicts (save_contacts (some unsaved) saved_one).1 ≡ false)
    × ((cs' : List Contact) × ((save_contacts (some unsaved) saved_one).0 ≡ some cs')
        × (details_of cs' ≡ details_of unsaved)
        × (is_timed_out saved_one ≡ true → cs' ≡ unsaved)
        × (is_timed_out saved_one ≡ false → heads_of cs' ≡ heads_of (request_of saved_one).results))
save_contacts_lem_example = save_contacts_lem unsaved saved_one refl

abbrev pending : Run Contact
pending = timed_out (record { error = no_error; error_map = []; results = [] })

abbrev save_request : Start
save_request = record {
  request = 1;
  type = contact_save_request;
  special = false;
  missing = true;
  worker = 2;
  deleted_early = false;
  deleted_late = false;
}

abbrev unsaved_request : Request Contact
unsaved_request = record { error = no_error; error_map = []; results = unsaved }

save_contacts-refused_example :
    ((start_request_impl save_request sync_task_queue (init false)).0 ≡ init false)
    × ((save_contacts
          (some unsaved)
          (start_run save_request (init false) unsaved_request saved_one)).0
        ≡ some unsaved)
    × ((save_contacts
          (some unsaved)
          (start_run save_request (init false) unsaved_request saved_one)).1
        ≡ record { success = true; error = no_error; error_map = [] })
unfolding init
save_contacts-refused_example =
    save_contacts-refused save_request (init false) unsaved saved_one refl refl
