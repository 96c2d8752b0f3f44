-- ===== src/Merge/Tests.antt =====
-- src/engine/contactcopyandremoverequest.cpp: the theorems at concrete contacts.
use qtcontacts_tracker.Base.{
  ℕ, ◌≡◌, refl, true, Bool, Text, codes, List, [], ◌∷◌, ◌++◌, All, same_text, false, ◌||◌,
}
use qtcontacts_tracker.Merge.{Predicates, merge_sources, merge_contacts, has_single, values}
use qtcontacts_tracker.Merge.Once.{Once}
use qtcontacts_tracker.Merge.Single.{merge_sources-Once}
use qtcontacts_tracker.Merge.Whole.{inserts_from, merge_contacts_complete}

abbrev fold : ℕ → ℕ
fold c = c

abbrev addressbook : Text
addressbook = codes "addressbook"

abbrev targets : List Text
targets = codes "telepathy" ∷ addressbook ∷ codes "mfe#2" ∷ []

abbrev table : Predicates
table = record {
  single = (codes "b", codes "birthday") ∷ (codes "c", codes "birthday") ∷ [];
  single_with_graph = (codes "c", codes "photo") ∷ [];
  multi = (codes "c", codes "type") ∷ (codes "c", codes "phone") ∷ [];
  multi_with_graph = [];
}

one_birthday :
    (merge_sources (codes "type") table (codes "a") (codes "b" ∷ codes "c" ∷ [])).singles
    ≡ record { with_graph = false; predicate = codes "birthday"; source = codes "b" }
      ∷ record { with_graph = true; predicate = codes "photo"; source = codes "c" }
      ∷ []
unfolding merge_sources
one_birthday = refl

abbrev unset : Text → Text
unset contact = []

merge_sources-Once_example :
    let m = merge_sources (codes "type") table (codes "a") (codes "b" ∷ codes "c" ∷ []) in
    Once m.singles × All (λ i. has_single table (codes "a") i.predicate ≡ false) m.singles
merge_sources-Once_example =
    merge_sources-Once (codes "type") table (codes "a") (codes "b" ∷ codes "c" ∷ [])

merge_contacts_complete_example :
    let m = merge_contacts (codes "type") table (codes "a") (codes "c") in
    All
      (λ p. (has_single table (codes "a") p || inserts_from (codes "c") m.singles p) ≡ true)
      (values (codes "c") table.single_with_graph ++ values (codes "c") table.single)
    × All
        (λ p. (same_text p (codes "type") || inserts_from (codes "c") m.multis p) ≡ true)
        (values (codes "c") table.multi_with_graph ++ values (codes "c") table.multi)
merge_contacts_complete_example =
    merge_contacts_complete (codes "type") table (codes "a") (codes "c") refl

abbrev is_one : Text → Bool
is_one t = same_text t (codes "1")
