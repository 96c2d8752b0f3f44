-- ===== src/Merge.antt =====
-- src/engine/contactcopyandremoverequest.cpp: the request that merges contacts.
--
-- A `QMultiHash` from contacts to predicates is a list of pairs, the latest first. A `QSet` is a
-- list without repetition. Qt's case folding of a character is a parameter, and an insertion is
-- known by the contacts and the predicate that its query names.
use qtcontacts_tracker.Base.{
  ℕ, Bool, true, false, not, ◌&&◌, ◌||◌, ◌==◌, if◌then◌else◌, Text, codes, list_beq, nat_eq, List,
  [], ◌∷◌, ◌++◌, Option, none, some, any, select, map, is_empty, length, same_text,
}
pub mod Target
pub mod Once
pub mod Single
pub mod Whole
pub mod Fetched
mod Tests

-- `startsWith` of a text and a prefix.
abbrev pub starts_with : Text → Text → Bool
starts_with t [] = true
starts_with [] (p ∷ ps) = false
starts_with (c ∷ t) (p ∷ ps) = c == p && starts_with t ps

abbrev pub mfe : Text
mfe = codes "mfe"

abbrev pub telepathy : Text
telepathy = codes "telepathy"

module _ (fold : ℕ → ℕ) where
  -- Comparison with `Qt::CaseInsensitive`.
  abbrev pub same_folded : Text → Text → Bool
  same_folded a b = same_text (map fold a) (map fold b)

  abbrev pub is_mfe : Text → Bool
  is_mfe t = starts_with (map fold t) (map fold mfe)

  -- The loop over the targets that looks for MFE accounts, from the one found so far on: `none`
  -- where a second one is found.
  unfoldable pub mfe_loop : Text → List Text → Option Text
  mfe_loop final [] = some final
  mfe_loop final (t ∷ ts) =
      let skipped = mfe_loop final ts in
      let found = mfe_loop t ts in
      if not (is_mfe t) then skipped else if is_empty final then found else none

-- A `foreach` that returns the first target that passes a test.
abbrev pub first_of : (Text → Bool) → List Text → Option Text
first_of p [] = none
first_of p (t ∷ ts) = let rest = first_of p ts in if p t then some t else rest

abbrev pub or_target : Option Text → Text → Text
or_target none t = t
or_target (some t) u = t

module _ (fold : ℕ → ℕ) (engine_target : Text) where
  -- What follows where no target is an MFE account.
  unfoldable pub pick_other : List Text → Text → Text
  pick_other targets destination =
      let is_telepathy = same_folded fold destination telepathy in
      or_target (first_of (λ t. same_folded fold t engine_target) targets) (
        if length targets == 1 && is_telepathy
        then telepathy
        else if not is_telepathy && not (is_empty destination)
        then destination
        else or_target (first_of (λ t. not (same_folded fold t telepathy)) targets) engine_target)

  -- `pickPreferredSyncTarget`: `none` where an error is reported and the target is empty.
  unfoldable pub pick_preferred_sync_target : List Text → Text → Option Text
  unfolding mfe_loop pick_other
  pick_preferred_sync_target targets destination = elim (mfe_loop fold [] targets) [
    | none ↦ none
    | some final ↦
        if not (is_empty final) then some final else some (pick_other targets destination)
  ]

-- The four hashes of predicates.
pub record Predicates : Type 0 where
  pub single : List (Text × Text)
  pub single_with_graph : List (Text × Text)
  pub multi : List (Text × Text)
  pub multi_with_graph : List (Text × Text)

-- `values(key)` and `contains(key, value)`.
abbrev pub values : Text → List (Text × Text) → List Text
values k [] = []
values k ((j, v) ∷ m) = let rest = values k m in if same_text j k then v ∷ rest else rest

abbrev pub contains : List (Text × Text) → Text → Text → Bool
contains [] k v = false
contains ((j, w) ∷ m) k v = (same_text j k && same_text w v) || contains m k v

-- `toSet()`.
abbrev pub to_set : List Text → List Text
to_set [] = []
to_set (t ∷ ts) = let rest = to_set ts in if any (same_text t) rest then rest else t ∷ rest

pub record Insertion : Type 0 where
  pub with_graph : Bool
  pub predicate : Text
  pub source : Text

-- What a merge makes: the hashes, and the insertions in the order of the queries. Those of
-- single-valued predicates stand apart.
pub record Merged : Type 0 where
  pub predicates : Predicates
  pub singles : List Insertion
  pub multis : List Insertion

abbrev pub has_single : Predicates → Text → Text → Bool
has_single t target p = contains t.single target p || contains t.single_with_graph target p

-- A loop of `mergeContacts` over single-valued predicates of the source: a predicate that the
-- target has is skipped, any other is inserted and noted for the target.
unfoldable pub single_loop :
    Text → Text → Bool → Predicates → List Text → Predicates × List Insertion
single_loop target source graphed t [] = (t, [])
single_loop target source graphed t (p ∷ ps) =
    let skipped = single_loop target source graphed t ps in
    let noted =
      single_loop target source graphed (record t { single = (target, p) ∷ t.single }) ps in
    if has_single t target p
    then skipped
    else (noted.0, record { with_graph = graphed; predicate = p; source = source } ∷ noted.1)

-- A loop over the other predicates: every one is inserted, but for the type.
unfoldable pub multi_loop : Text → Text → Bool → List Text → List Insertion
multi_loop rdf_type source graphed [] = []
multi_loop rdf_type source graphed (p ∷ ps) =
    let rest = multi_loop rdf_type source graphed ps in
    if same_text p rdf_type
    then rest
    else record { with_graph = graphed; predicate = p; source = source } ∷ rest

-- `mergeContacts`.
unfoldable pub merge_contacts : Text → Predicates → Text → Text → Merged
unfolding single_loop multi_loop
merge_contacts rdf_type t target source =
    let graphed = single_loop target source true t (values source t.single_with_graph) in
    let plain = single_loop target source false graphed.0 (values source graphed.0.single) in
    record {
      predicates = plain.0;
      singles = graphed.1 ++ plain.1;
      multis =
          multi_loop rdf_type source true (to_set (values source plain.0.multi_with_graph))
          ++ multi_loop rdf_type source false (to_set (values source plain.0.multi));
    }

-- The loop of `buildMergeQuery` over the sources of a target.
unfoldable pub merge_sources : Text → Predicates → Text → List Text → Merged
unfolding merge_contacts
merge_sources rdf_type t target [] = record { predicates = t; singles = []; multis = [] }
merge_sources rdf_type t target (source ∷ sources) =
    let first = merge_contacts rdf_type t target source in
    let rest = merge_sources rdf_type first.predicates target sources in
    record {
      predicates = rest.predicates;
      singles = first.singles ++ rest.singles;
      multis = first.multis ++ rest.multis;
    }

-- The set of the sync targets of a target and its sources. A contact without one has the empty
-- text.
unfoldable pub sync_targets : (Text → Text) → Text → List Text → List Text
sync_targets target_of target sources = to_set (map target_of (target ∷ sources))

-- A row of `fetchContactDetails`, its columns split by the separators: each property with its
-- cardinality, as far as the fields are two.
pub record Details : Type 0 where
  pub contact : Text
  pub graphed : List (List Text)
  pub ungraphed : List (List Text)

-- `reads_as_one` is the test on `toInt()` of a cardinality. The predicates that are single-valued
-- with a graph are noted in a map, which the loop over the contacts shares.
module _ (reads_as_one : Text → Bool) where
  unfoldable pub graphed_loop :
      Text → Predicates → List Text → List (List Text) → Option (Predicates × List Text)
  graphed_loop contact t noted [] = some (t, noted)
  graphed_loop contact t noted ((p ∷ cardinality ∷ []) ∷ rows) =
      if not (reads_as_one cardinality)
      then graphed_loop contact (record t { multi_with_graph = (contact, p) ∷ t.multi_with_graph })
          noted rows
      else graphed_loop contact
          (record t { single_with_graph = (contact, p) ∷ t.single_with_graph }) (p ∷ noted) rows
  graphed_loop contact t noted (_ ∷ rows) = none

  unfoldable pub ungraphed_loop :
      Text → Predicates → List Text → List (List Text) → Option Predicates
  ungraphed_loop contact t noted [] = some t
  ungraphed_loop contact t noted ((p ∷ cardinality ∷ []) ∷ rows) =
      if not (reads_as_one cardinality)
      then ungraphed_loop contact (record t { multi = (contact, p) ∷ t.multi }) noted rows
      else if not (any (same_text p) noted)
      then ungraphed_loop contact (record t { single = (contact, p) ∷ t.single }) noted rows
      else ungraphed_loop contact t noted rows
  ungraphed_loop contact t noted (_ ∷ rows) = none

  -- `fetchContactDetails`, from the answers to its queries: `none` where it returns false.
  unfoldable pub fetch_contact_details : Predicates → List Text → List Details → Option Predicates
  unfolding graphed_loop ungraphed_loop
  fetch_contact_details t noted [] = some t
  fetch_contact_details t noted (d ∷ ds) = elim (graphed_loop d.contact t noted d.graphed) [
    | none ↦ none
    | some (t', noted') ↦ elim (ungraphed_loop d.contact t' noted' d.ungraphed) [
      | none ↦ none
      | some t'' ↦ fetch_contact_details t'' noted' ds
    ]
  ]
