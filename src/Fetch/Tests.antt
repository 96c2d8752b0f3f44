-- ===== src/Fetch/Tests.antt =====
-- src/engine/abstractcontactfetchrequest.cpp: rows and links at concrete values.
use qtcontacts_tracker.Base.{
  ℕ, ◌≤◌, Bool, false, ◌&&◌, ◌||◌, Text, codes, List, [], ◌∷◌, ◌++◌, some, length, ◌≡◌, refl, arith,
  lookup, insert,
}
use qtcontacts_tracker.Fetch.{
  Fetched, fetch_results, link_back, link_all, link_details, update_detail_links,
}
use qtcontacts_tracker.Fetch.Results.{ids_of, fetch_results_lem}
use qtcontacts_tracker.Fetch.Added.{linked, has_detail}
use qtcontacts_tracker.Fetch.Links.{update_detail_links_lem}

-- A row is the id of its contact and a value, and a contact is the list of its values.
abbrev local_id : ℕ × ℕ → ℕ
local_id row = row.0

abbrev new_contact : ℕ → List ℕ
new_contact id = []

abbrev read : ℕ × ℕ → List ℕ → List ℕ
read row c = c ++ (row.1 ∷ [])

abbrev never : ℕ → Bool
never i = false

abbrev rows : List (ℕ × ℕ)
rows = (4, 1) ∷ (5, 2) ∷ (4, 3) ∷ (6, 4) ∷ (4, 5) ∷ []

abbrev nothing_yet : Fetched (List ℕ)
nothing_yet = record { contacts = []; contact_ids = [] }

fetch_results_lem_example :
    let s = fetch_results local_id new_contact read (some 2) never 0 rows nothing_yet in
    (new : List ℕ) × (ids_of s.contacts ≡ [] ++ new)
    × (s.contact_ids ≡ [] ++ new)
    × (length s.contacts ≤ 2)
fetch_results_lem_example =
    fetch_results_lem local_id new_contact read 2 never 0 rows nothing_yet (omega arith)

two_contacts :
    (fetch_results local_id new_contact read (some 2) never 0 rows nothing_yet).contacts
    ≡ (4, 1 ∷ 3 ∷ []) ∷ (5, 2 ∷ []) ∷ []
unfolding fetch_results lookup insert
two_contacts = refl

abbrev details : List (Text × List Text)
details = (codes "a", codes "b" ∷ codes "x" ∷ []) ∷ (codes "b", []) ∷ []

update_detail_links_lem_example :
    (linked (update_detail_links details) (codes "b") (codes "a")
      ≡ linked details (codes "b") (codes "a")
        || (linked details (codes "a") (codes "b") && has_detail details (codes "b")))
    × (has_detail (update_detail_links details) (codes "b") ≡ has_detail details (codes "b"))
update_detail_links_lem_example = update_detail_links_lem details (codes "b") (codes "a")

linked_back :
    update_detail_links details
    ≡ (codes "a", codes "b" ∷ codes "x" ∷ []) ∷ (codes "b", codes "a" ∷ []) ∷ []
unfolding update_detail_links link_details link_all link_back lookup insert
linked_back = refl
