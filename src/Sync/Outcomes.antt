-- ===== src/Sync/Outcomes.antt =====
-- src/engine/engine.cpp: what synchronous calls return.
use qtcontacts_tracker.Base.{
  ℕ, Bool, true, false, not, List, [], ◌∷◌, none, some, length, ◌≡◌, refl, ap, arith, map,
}
use qtcontacts_tracker.Request.{no_error, unspecified_error, is_no_error}
use qtcontacts_tracker.Dispatch.{
  Start, Engine, start_request_impl, create_request_worker, check_security_tokens, sync_task_queue,
}
use qtcontacts_tracker.Sync.{
  Request, Run, refused, timed_out, finished, request_of, run_sync_request, Changed, change,
  Contact, update_contacts, save_contacts, start_run,
}

-- A call that changes something says that it succeeded although its error says otherwise, or the
-- other way round.
abbrev pub contradicts : Changed → Bool
contradicts c = elim c.success [ true ↦ not (is_no_error c.error) | false ↦ is_no_error c.error ]

-- The wait ended while the request had no error yet.
abbrev pub is_pending : {A : Type 0} → Run A → Bool
is_pending (refused r) = false
is_pending (timed_out r) = is_no_error r.error
is_pending (finished r) = false

-- Removing contacts or relationships, and saving relationships, contradicts itself exactly if the
-- wait ends before the request has an error or is finished: the call returns success then, with
-- `UnspecifiedError`.
pub change-contradicts :
    {A : Type 0} (run : Run A)
    → (contradicts (change run) ≡ is_pending run)
      × (is_pending run ≡ true
          → ((change run).success ≡ true) × ((change run).error ≡ unspecified_error))
unfolding change run_sync_request
change-contradicts (refused r) = ground arith
change-contradicts (timed_out r) = ground arith
change-contradicts (finished r) = ground arith

abbrev pub is_timed_out : {A : Type 0} → Run A → Bool
is_timed_out (refused r) = false
is_timed_out (timed_out r) = true
is_timed_out (finished r) = false

abbrev pub details_of : List Contact → List ℕ
details_of cs = map (λ c. c.details) cs

-- What the saved contacts replace: the id and the label.
abbrev pub heads_of : List Contact → List (ℕ × ℕ)
heads_of cs = map (λ c. (c.id, c.display_label)) cs

Updated : List Contact → List Contact → List Contact → Type 0
Updated cs saved cs' = (details_of cs' ≡ details_of cs) × (heads_of cs' ≡ heads_of saved)

update_contacts-Updated :
    (cs saved : List Contact)
    → length saved ≡ length cs
    → (cs' : List Contact) × (update_contacts cs saved ≡ some cs') × Updated cs saved cs'
unfolding update_contacts Updated
update_contacts-Updated [] [] h = ([], refl, (refl, refl))
update_contacts-Updated [] (d ∷ ds) h = absurd (omega (arith, h))
update_contacts-Updated (c ∷ cs) [] h = absurd (omega (arith, h))
update_contacts-Updated (c ∷ cs) (d ∷ ds) h =
    let (cs', e, (same, heads)) = update_contacts-Updated cs ds (omega (arith, h)) in
    (
      record c { display_label = d.display_label; id = d.id } ∷ cs',
      rw (e, update_contacts),
      (ap (◌∷◌ c.details) same, ap (◌∷◌ (d.id, d.display_label)) heads),
    )

update_contacts_self : (cs : List Contact) → update_contacts cs cs ≡ some cs
unfolding update_contacts
update_contacts_self [] = refl
update_contacts_self (c ∷ cs) = rw (update_contacts_self cs, update_contacts)

-- Saving contacts, where the request has as many as the caller, never contradicts itself. The
-- contacts of the caller keep their details. If the wait ends too early, they are as they were;
-- otherwise they get the ids and the display labels of the saved ones, in order.
pub save_contacts_lem :
    (cs : List Contact) (run : Run Contact)
    → length (request_of run).results ≡ length cs
    → (contradicts (save_contacts (some cs) run).1 ≡ false)
      × ((cs' : List Contact) × ((save_contacts (some cs) run).0 ≡ some cs')
          × (details_of cs' ≡ details_of cs)
          × (is_timed_out run ≡ true → cs' ≡ cs)
          × (is_timed_out run ≡ false → heads_of cs' ≡ heads_of (request_of run).results))
unfolding save_contacts run_sync_request Updated
save_contacts_lem cs (refused r) h =
    let (cs', e, (same, heads)) = update_contacts-Updated cs r.results h in
    (ground arith, (cs', e, same, λ b. cc b, λ b. heads))
save_contacts_lem cs (timed_out r) h = (refl, (cs, refl, refl, λ b. refl, λ b. cc b))
save_contacts_lem cs (finished r) h =
    let (cs', e, (same, heads)) = update_contacts-Updated cs r.results h in
    (ground arith, (cs', e, same, λ b. cc b, λ b. heads))

start_refused :
    (c : Start) (s : Engine)
    → s.mandatory_tokens_found ≡ false
    → c.missing ≡ true
    → start_request_impl c sync_task_queue s ≡ (s, none)
unfolding start_request_impl create_request_worker check_security_tokens
start_refused c s unknown missing = rw (unknown, missing)

start_run_refused :
    (c : Start) (s : Engine) (fresh : Request Contact) (ran : Run Contact)
    → s.mandatory_tokens_found ≡ false
    → c.missing ≡ true
    → start_run c s fresh ran ≡ refused fresh
unfolding start_run
start_run_refused c s fresh ran unknown missing =
    rw (start_refused c s unknown missing, start_run) refl

-- If a required security token is missing, and the engine has not found the tokens before, then
-- saving contacts does nothing at all, and yet it succeeds without an error: no task is enqueued,
-- and the contacts come back as they were.
pub save_contacts-refused :
    (c : Start) (s : Engine) (cs : List Contact) (ran : Run Contact)
    → s.mandatory_tokens_found ≡ false
    → c.missing ≡ true
    → let fresh : Request Contact = record { error = no_error; error_map = []; results = cs } in
      ((start_request_impl c sync_task_queue s).0 ≡ s)
      × ((save_contacts (some cs) (start_run c s fresh ran)).0 ≡ some cs)
      × ((save_contacts (some cs) (start_run c s fresh ran)).1
          ≡ record { success = true; error = no_error; error_map = [] })
unfolding save_contacts run_sync_request
save_contacts-refused c s cs ran unknown missing =
    rw
      (start_run_refused c s (record { error = no_error; error_map = []; results = cs }) ran unknown
        missing)
      (ap (λ p. p.0) (start_refused c s unknown missing), update_contacts_self cs, refl)
