-- ===== src/Save/Thumbnails.antt =====
-- src/engine/contactsaverequest.cpp: what the checks and changes of one contact's details do.
use qtcontacts_tracker.Base.{
  Bool, true, false, not, ◌&&◌, ◌||◌, any, if◌then◌else◌, Text, same_text, List, [], ◌∷◌, some,
  is_empty, select, text_eq, lookup, insert, lookup-insert, ◌≡◌, refl, arith, Bool-cases, inl, inr,
}
use qtcontacts_tracker.Request.{Error, no_error, invalid_detail_error, is_no_error}
use qtcontacts_tracker.Save.Details.{
  Detail, thumbnail_name, is_unknown_detail, details_by_uri, has_uri, verify_uris, verify_links,
  normalize_contact, find_account_detail_uris, is_linked_detail, first_with, is_own_thumbnail,
  is_own_avatar, save_avatar, save_thumbnail, writeback_thumbnails,
}

abbrev pub every : {A : Type 0} → (A → Bool) → List A → Bool
every p [] = true
every p (x ∷ xs) = p x && every p xs

-- Whether a URI is that of a detail.
abbrev pub names_detail : List Detail → Text → Bool
names_detail ds uri = any (λ d. not (is_empty d.detail_uri) && same_text d.detail_uri uri) ds

has_uri-details_by_uri :
    (ds : List Detail) (found : List (Text × Detail)) (uri : Text)
    → has_uri (details_by_uri ds found) uri ≡ names_detail ds uri || has_uri found uri
unfolding details_by_uri
has_uri-details_by_uri [] found uri = refl
has_uri-details_by_uri (d ∷ ds) found uri =
    let found' = if is_empty d.detail_uri then found else insert d.detail_uri d found in
    ground (arith, has_uri-details_by_uri ds found' uri, lookup-insert d.detail_uri uri d found)

verify_uris_lem :
    (found : List (Text × Detail)) (error : Error) (uris : List Text)
    → verify_uris found error uris
      ≡ (if every (has_uri found) uris then error else invalid_detail_error)
unfolding verify_uris
verify_uris_lem found error [] = refl
verify_uris_lem found error (uri ∷ uris) =
    let error' = if has_uri found uri then error else invalid_detail_error in
    ground (arith, verify_uris_lem found error' uris)

verify_links_lem :
    (found : List (Text × Detail)) (error : Error) (ds : List Detail)
    → verify_links found error ds ≡ (
        if every (λ d. every (has_uri found) d.linked_detail_uris) ds
        then error
        else invalid_detail_error)
unfolding verify_links
verify_links_lem found error [] = refl
verify_links_lem found error (d ∷ ds) =
    let error' = verify_uris found error d.linked_detail_uris in
    ground
      (arith, verify_uris_lem found error d.linked_detail_uris, verify_links_lem found error' ds)

every_cong :
    {A : Type 0} (p q : A → Bool) → ((x : A) → p x ≡ q x) → (xs : List A) → every p xs ≡ every q xs
every_cong p q h [] = refl
every_cong p q h (x ∷ xs) = ground (arith, h x, every_cong p q h xs)

-- Whether every link leads to a detail.
abbrev pub links_known : List Detail → Bool
links_known ds = every (λ d. every (names_detail ds) d.linked_detail_uris) ds

verify-names_detail :
    (ds : List Detail)
    → verify_links (details_by_uri ds []) no_error ds
      ≡ (if links_known ds then no_error else invalid_detail_error)
unfolding lookup
verify-names_detail ds =
    let found = details_by_uri ds [] in
    let same =
      every_cong (λ (d : Detail). every (has_uri found) d.linked_detail_uris)
        (λ d. every (names_detail ds) d.linked_detail_uris)
        (λ d.
          every_cong (has_uri found) (names_detail ds)
            (λ uri. ground (arith, has_uri-details_by_uri ds [] uri)) d.linked_detail_uris)
        ds in
    ground (arith, verify_links_lem found no_error ds, same)

-- A contact passes the check before it is saved exactly if the engine finds it compatible and every
-- link of a detail, after the display label was updated where the save is a full one, names the URI
-- of a detail of the same contact. Otherwise the error is the engine's, or `InvalidDetailError`.
pub normalize_contact_lem :
    (compatible : List Detail → List Detail × Error) (label : List Detail → List Detail)
    (is_new : Bool) (mask : List Text) (details : List Detail)
    → let (ds, e) = compatible details in
      let ds' = if is_new || is_empty mask then label ds else ds in
      normalize_contact compatible label is_new mask details ≡ (
        if is_no_error e
        then (ds', (if links_known ds' then no_error else invalid_detail_error))
        else (ds, e))
unfolding normalize_contact
normalize_contact_lem compatible label is_new mask details =
    let ds = (compatible details).0 in
    let ds' = if is_new || is_empty mask then label ds else ds in
    ground (arith, verify-names_detail ds')

module _ (accounts : List Text) where
  save_avatar-others :
      (url : Text) (ds : List Detail)
      → select (λ d. not (is_own_avatar accounts d)) (save_avatar accounts url ds)
        ≡ select (λ d. not (is_own_avatar accounts d)) ds
  unfolding save_avatar is_own_avatar is_linked_detail
  save_avatar-others url [] = refl
  save_avatar-others url (d ∷ ds) = ground (arith, save_avatar-others url ds)

  save_avatar-first :
      (url : Text) (ds : List Detail)
      → (d : Detail) × (first_with (is_own_avatar accounts) (save_avatar accounts url ds) ≡ some d)
        × (d.value ≡ url)
  unfolding save_avatar is_own_avatar is_linked_detail
  save_avatar-first url [] = (_, refl, refl)
  save_avatar-first url (d ∷ ds) = elim (Bool-cases (is_own_avatar accounts d)) [
    | inl h ↦ (record d { value = url }, ground (arith, h), refl)
    | inr h ↦ let (d', e, e') = save_avatar-first url ds in (d', ground (arith, h, e), e')
  ]

module _ (write_thumbnail : Text → Text × Bool) (file_url : Text → Text) where
  -- If a contact has a thumbnail of its own that is to be saved, and its file was written, then
  -- there is no error, the contact's own avatar, which is not linked to one of its online accounts,
  -- has the URL of that file, and all its other details are as they were.
  pub writeback_thumbnails_lem :
      (is_new : Bool) (mask : List Text) (details : List Detail) (thumbnail : Detail)
      → is_unknown_detail is_new mask thumbnail_name ≡ false
      → first_with (is_own_thumbnail (find_account_detail_uris details)) details ≡ some thumbnail
      → is_empty ((write_thumbnail thumbnail.value).0) ≡ false
      → let accounts = find_account_detail_uris details in
        let w = writeback_thumbnails write_thumbnail file_url is_new mask details in
        (avatar : Detail) × (first_with (is_own_avatar accounts) w.details ≡ some avatar)
        × (avatar.value ≡ file_url ((write_thumbnail thumbnail.value).0))
        × (select (λ d. not (is_own_avatar accounts d)) w.details
            ≡ select (λ d. not (is_own_avatar accounts d)) details)
        × (w.error ≡ no_error)
  unfolding writeback_thumbnails save_thumbnail
  writeback_thumbnails_lem is_new mask details thumbnail known found file =
      let accounts = find_account_detail_uris details in
      let url = file_url ((write_thumbnail thumbnail.value).0) in
      let (avatar, e, e') = save_avatar-first accounts url details in
      rw (known, found, file) (avatar, e, e', save_avatar-others accounts url details, refl)
