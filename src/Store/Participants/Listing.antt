-- ===== src/Store/Participants/Listing.antt =====
-- What actions do to the order of the participants.
use mattermost_plugin_openta.Base.{
  String, ◌≡◌, refl, Option, none, some, List, [], ◌∷◌, ◌++◌, map, arith, contains, remove,
  remove-absent, lookup, Option-cases, inl, inr, if◌then◌else◌,
}
use mattermost_plugin_openta.Store.Action.{
  Action, ParticipantInfo, participant_added, participant_removed, hand_raised, hand_lowered,
  participant_media_changed, participant_role_changed, participants_reset, participants_bulk_set,
}
use mattermost_plugin_openta.Store.Participants.{
  ParticipantsState, participants_reducer, update, added, removed,
}
use mattermost_plugin_openta.Store.Participants.Invariant.{IsValid}

-- The order after an action, from the order before it.
abbrev pub order_step : List String → Action → List String
order_step ids (participant_added p) = if contains p.id ids then ids else ids ++ p.id ∷ []
order_step ids (participant_removed id) = remove id ids
order_step ids (participants_bulk_set ps) = map (λ p. p.id) ps
order_step ids participants_reset = []
order_step ids _ = ids

update-order :
    (s : ParticipantsState) (id : String) (change : ParticipantInfo → ParticipantInfo)
    (o : Option ParticipantInfo)
    → (update s id change o).order ≡ s.order
update-order s id change none = refl
update-order s id change (some p) = refl

-- In a valid state.
pub reducer-order :
    (s : ParticipantsState) (a : Action)
    → IsValid s
    → (participants_reducer s a).order ≡ order_step s.order a
unfolding participants_reducer added removed
reducer-order s (participant_added p) v = elim (Option-cases (lookup p.id s.by_id)) [
  | inl new ↦ rw (new, added) (ground (arith, v.keys p.id))
  | inr (old, found) ↦ rw (found, added) (ground (arith, v.keys p.id))
]
reducer-order s (participant_removed id) v = elim (Option-cases (lookup id s.by_id)) [
  | inl new ↦ rw (new, removed) (ground (arith, v.keys id, remove-absent id s.order))
  | inr (old, found) ↦ rw (found, removed)
]
reducer-order s (hand_raised id) v = update-order s id _ _
reducer-order s (hand_lowered id) v = update-order s id _ _
reducer-order s (participant_media_changed id muted camera_off) v = update-order s id _ _
reducer-order s (participant_role_changed id role) v = update-order s id _ _
reducer-order s _ v = refl
