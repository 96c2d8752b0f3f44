-- ===== src/Engine/Avatar.antt =====
-- src/engine/engine.cpp: the order of avatars in `updateAvatar`.
--
-- The orders of texts and of URLs are parameters. `QList::first` of an empty list is `none`.
use qtcontacts_tracker.Base.{
  ℕ, Bool, not, ◌==◌, ltb, if◌then◌else◌, Text, same_text, List, [], ◌∷◌, Option, none, some,
}

-- An avatar with the availability rank of one account that it is linked to.
pub record RankedAvatar : Type 0 where
  pub linked_detail_uris : List Text
  pub sub_type : Text
  pub image_url : Text
  pub availability : ℕ

abbrev pub first_of : List Text → Option Text
first_of [] = none
first_of (uri ∷ uris) = some uri

module _ (less_text : Text → Text → Bool) (less_url : Text → Text → Bool) where
  unfoldable pub less_linked : Text → Text → RankedAvatar → RankedAvatar → Bool
  less_linked account_a account_b a b =
      if not (same_text account_a account_b)
      then less_text account_a account_b
      else (if not (same_text a.sub_type b.sub_type)
          then less_text a.sub_type b.sub_type
          else less_url a.image_url b.image_url)

  -- `operator<` of avatars.
  unfoldable pub less : RankedAvatar → RankedAvatar → Option Bool
  unfolding less_linked
  less a b =
      if not (a.availability == b.availability)
      then some (ltb b.availability a.availability)
      else elim (first_of a.linked_detail_uris) [
        | none ↦ none
        | some account_a ↦ elim (first_of b.linked_detail_uris) [
          | none ↦ none
          | some account_b ↦ some (less_linked account_a account_b a b)
        ]
      ]

-- The turns of the loop over the URIs that an online avatar is linked to: one for each, or one if
-- there is none. `rank` is the availability of an account's presence, and `account_of` the account
-- that a URI names; both are `none` or empty where there is none.
abbrev pub uris_or_empty : List Text → List Text
uris_or_empty [] = [] ∷ []
uris_or_empty uris = uris

module _ (rank : Text → ℕ) (unknown_rank : ℕ) (account_of : Text → Text) where
  abbrev pub rank_of : Text → ℕ
  rank_of [] = unknown_rank
  rank_of uri = elim (account_of uri) [ [] ↦ unknown_rank | account ↦ rank account ]

  abbrev pub rank_loop : List Text → Text → Text → List Text → List RankedAvatar
  rank_loop linked sub_type url [] = []
  rank_loop linked sub_type url (uri ∷ uris) =
      record {
        linked_detail_uris = linked;
        sub_type = sub_type;
        image_url = url;
        availability = rank_of uri;
      }
      ∷ rank_loop linked sub_type url uris

  unfoldable pub rank_avatar : List Text → Text → Text → List RankedAvatar
  rank_avatar linked sub_type url = rank_loop linked sub_type url (uris_or_empty linked)
