-- ===== src/Label/Tests.antt =====
-- src/engine/displaylabelgenerator.cpp: the theorems at a concrete contact.
use qtcontacts_tracker.Base.{◌≡◌, refl, true, false, Text, codes, [], ◌∷◌}
use qtcontacts_tracker.Label.{
  Detail, first_name, last_name, nickname_text, Contact, ListOptions, LabelSettings,
  create_generators, create_display_label, create_label, normalized_hint, name, nickname,
  organization, global_presence, online_account, email_address, phone_number, url,
}
use qtcontacts_tracker.Label.Hint.{fetched, create_display_label-normalized_hint}

abbrev dude : Contact
dude first_name = codes "Jeffrey"
dude last_name = codes "Lebowski"
dude nickname_text = codes "The Dude"
dude _ = []

abbrev by_name : ListOptions
by_name = record { last_name_first = false; prefer_nickname = false }

full_name : create_display_label [] (create_generators by_name) dude ≡ codes "Jeffrey Lebowski"
unfolding create_display_label create_generators create_label
full_name = refl

abbrev odd : LabelSettings
odd = record { name_order = codes "none"; prefer_nickname = true }

abbrev names : Detail → Text
names name = codes "Name"
names nickname = codes "Nickname"
names organization = codes "Organization"
names global_presence = codes "GlobalPresence"
names online_account = codes "OnlineAccount"
names email_address = codes "EmailAddress"
names phone_number = codes "PhoneNumber"
names url = codes "Url"

create_display_label-normalized_hint_example :
    let label = codes "DisplayLabel" in
    create_display_label []
      (create_generators by_name)
      (fetched names (normalized_hint names label (label ∷ []) (create_generators by_name)) dude)
    ≡ create_display_label [] (create_generators by_name) dude
create_display_label-normalized_hint_example =
    create_display_label-normalized_hint names (codes "DisplayLabel") (codes "DisplayLabel" ∷ [])
      (create_generators by_name) dude refl
