-- ===== src/Presence/Global.antt =====
-- src/lib/presenceutils.cpp: the global presence after an update.
use qtcontacts_tracker.Base.{◌≡◌, refl, List, Option, none, some, or_else}
use qtcontacts_tracker.Presence.{
  Presence, GlobalPresence, Best, best, update_global_presence, or_empty, with_best,
}

or_else_idem {ℓ} : {A : Type ℓ} (a b : Option A) → or_else a (or_else a b) ≡ or_else a b
or_else_idem none b = refl
or_else_idem (some a) b = refl

with_best_idem :
    (o : Option Best) (g : Option GlobalPresence) → with_best o (with_best o g) ≡ with_best o g
with_best_idem none g = refl
with_best_idem (some b) g =
    let old = or_empty g in
    rw (
      or_else_idem b.most_recent.timestamp old.timestamp,
      or_else_idem b.most_available.state old.state,
      or_else_idem b.most_recent.nickname old.nickname,
      or_else_idem b.most_recent.custom_message old.custom_message,
      or_else_idem b.most_available.state_text old.state_text,
      or_else_idem b.most_available.image_url old.image_url,
    )

-- An update is a fixed point: a second one, with the same presence details, changes nothing.
pub update_global_presence_idem :
    (ds : List Presence) (global : Option GlobalPresence)
    → update_global_presence ds (update_global_presence ds global)
      ≡ update_global_presence ds global
unfolding update_global_presence
update_global_presence_idem ds global = with_best_idem (best ds) global
