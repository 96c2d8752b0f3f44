-- ===== src/Save/Details.antt =====
-- src/engine/contactsaverequest.cpp: the details of a contact before it is saved.
--
-- `compatibleContact` and `updateDisplayLabel` of the engine are parameters, and so is
-- `qctWriteThumbnail`, which gives the name of the written file, or an empty one and whether the
-- image could not be resized. The image of a thumbnail is null if its value is empty.
use qtcontacts_tracker.Base.{
  Bool, true, false, not, ◌&&◌, ◌||◌, any, if◌then◌else◌, Text, same_text, codes, List, [], ◌∷◌,
  ◌++◌, Option, none, some, is_empty, text_eq, lookup, insert,
}
use qtcontacts_tracker.Request.{
  Error, no_error, unspecified_error, out_of_memory_error, invalid_detail_error, is_no_error,
}

-- A detail, with the value of its field: an avatar's URL, or a thumbnail's image.
pub record Detail : Type 0 where
  pub definition_name : Text
  pub detail_uri : Text
  pub linked_detail_uris : List Text
  pub value : Text

abbrev pub thumbnail_name : Text
thumbnail_name = codes "Thumbnail"

abbrev pub avatar_name : Text
avatar_name = codes "Avatar"

abbrev pub online_account_name : Text
online_account_name = codes "OnlineAccount"

abbrev pub contains_text : List Text → Text → Bool
contains_text names name = any (λ n. same_text n name) names

-- `isUnknownDetail`: a partial save of a contact that exists, with a mask that lacks the name.
unfoldable pub is_unknown_detail : Bool → List Text → Text → Bool
is_unknown_detail is_new mask name = not (is_new || is_empty mask) && not (contains_text mask name)

-- The first loop of `normalizeContact`: details by their URI.
unfoldable pub details_by_uri : List Detail → List (Text × Detail) → List (Text × Detail)
unfolding insert
details_by_uri [] found = found
details_by_uri (d ∷ ds) found =
    details_by_uri ds (if is_empty d.detail_uri then found else insert d.detail_uri d found)

abbrev pub has_uri : List (Text × Detail) → Text → Bool
has_uri found uri = elim (lookup uri found) [ none ↦ false | some d ↦ true ]

-- The loops over the linked URIs, which go on after an error.
unfoldable pub verify_uris : List (Text × Detail) → Error → List Text → Error
unfolding lookup
verify_uris found error [] = error
verify_uris found error (uri ∷ uris) =
    verify_uris found (if has_uri found uri then error else invalid_detail_error) uris

unfoldable pub verify_links : List (Text × Detail) → Error → List Detail → Error
unfolding verify_uris
verify_links found error [] = error
verify_links found error (d ∷ ds) =
    verify_links found (verify_uris found error d.linked_detail_uris) ds

module _ (compatible : List Detail → List Detail × Error) (label : List Detail → List Detail) where
  -- `normalizeContact`: the details, and the error.
  unfoldable pub normalize_contact : Bool → List Text → List Detail → List Detail × Error
  unfolding verify_links details_by_uri
  normalize_contact is_new mask details =
      let (ds, e) = compatible details in
      let ds' = if is_new || is_empty mask then label ds else ds in
      if is_no_error e then (ds', verify_links (details_by_uri ds' []) no_error ds') else (ds, e)

-- `findAccountDetailUris`, a set.
unfoldable pub find_account_detail_uris : List Detail → List Text
find_account_detail_uris [] = []
find_account_detail_uris (d ∷ ds) =
    let rest = find_account_detail_uris ds in
    if same_text d.definition_name online_account_name then d.detail_uri ∷ rest else rest

unfoldable pub is_linked_detail : Detail → List Text → Bool
is_linked_detail d uris = any (λ uri. contains_text uris uri) d.linked_detail_uris

-- The first detail that passes a test.
abbrev pub first_with : (Detail → Bool) → List Detail → Option Detail
first_with p [] = none
first_with p (d ∷ ds) = if p d then some d else first_with p ds

module _ (accounts : List Text) where
  unfoldable pub is_own_thumbnail : Detail → Bool
  unfolding is_linked_detail
  is_own_thumbnail d =
      same_text d.definition_name thumbnail_name
      && (not (is_empty d.value) && not (is_linked_detail d accounts))

  unfoldable pub is_own_avatar : Detail → Bool
  unfolding is_linked_detail
  is_own_avatar d = same_text d.definition_name avatar_name && not (is_linked_detail d accounts)

  -- `removeDetail` of the default avatar: without one, nothing is removed.
  unfoldable pub remove_avatar : List Detail → List Detail
  unfolding is_own_avatar
  remove_avatar [] = []
  remove_avatar (d ∷ ds) = if is_own_avatar d then ds else d ∷ remove_avatar ds

  -- `saveDetail` of the default avatar with a URL: without one, a new detail is added.
  unfoldable pub save_avatar : Text → List Detail → List Detail
  unfolding is_own_avatar
  save_avatar url [] =
      record {
        definition_name = avatar_name;
        detail_uri = [];
        linked_detail_uris = [];
        value = url;
      }
      ∷ []
  save_avatar url (d ∷ ds) =
      if is_own_avatar d then record d { value = url } ∷ ds else d ∷ save_avatar url ds

-- What `writebackThumbnails` returns and leaves behind: the mask is the request's.
pub record Written : Type 0 where
  pub details : List Detail
  pub mask : List Text
  pub error : Error

module _ (write_thumbnail : Text → Text × Bool) (file_url : Text → Text) where
  unfoldable pub save_thumbnail : Bool → List Text → List Detail → List Text → Detail → Written
  unfolding is_unknown_detail remove_avatar save_avatar
  save_thumbnail is_new mask details accounts thumbnail =
      let (file, cannot_resize) = write_thumbnail thumbnail.value in
      if is_empty file
      then record {
        details = remove_avatar accounts details;
        mask = mask;
        error = if cannot_resize then out_of_memory_error else unspecified_error;
      }
      else record {
        details = save_avatar accounts (file_url file) details;
        mask =
            if is_unknown_detail is_new mask avatar_name then mask ++ (avatar_name ∷ []) else mask;
        error = no_error;
      }

  unfoldable pub writeback_thumbnails : Bool → List Text → List Detail → Written
  unfolding is_unknown_detail find_account_detail_uris is_own_thumbnail save_thumbnail
  writeback_thumbnails is_new mask details =
      let accounts = find_account_detail_uris details in
      let unchanged : Written = record { details = details; mask = mask; error = no_error } in
      if is_unknown_detail is_new mask thumbnail_name
      then unchanged
      else elim (first_with (is_own_thumbnail accounts) details) [
        | none ↦ unchanged
        | some thumbnail ↦ save_thumbnail is_new mask details accounts thumbnail
      ]
