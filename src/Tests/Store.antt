-- ===== src/Tests/Store.antt =====
-- The store's theorems at small states.
use mattermost_plugin_openta.Base.{◌≡◌, refl, none, some, [], ◌∷◌, eq_iff, arith}
use mattermost_plugin_openta.Store.Action.{ParticipantInfo, participant_removed, speaking_changed}
use mattermost_plugin_openta.Store.Participants.{ParticipantsState, participants_reducer}
use mattermost_plugin_openta.Store.Participants.Invariant.{reducer-IsValid, IsValid}
use mattermost_plugin_openta.Store.Participants.Updates.{roster, roster_step, reducer-roster}
use mattermost_plugin_openta.Store.Root.{RootState, initial, root_reducer}
use mattermost_plugin_openta.Store.Root.Pins.{PinKnown, root-PinKnown}

abbrev alice : ParticipantInfo
alice = record {
  id = "a";
  display_name = "Alice";
  role = none;
  is_host = none;
  is_speaking = none;
  hand_raised = none;
  muted = none;
  camera_off = none;
}

abbrev one_here : ParticipantsState
one_here = record { by_id = ("a", alice) ∷ []; order = "a" ∷ [] }

one_here-IsValid : IsValid one_here
one_here-IsValid = record {
  distinct = (refl, tt);
  keys = λ id. ground (arith, eq_iff "a" id);
  own_id = λ id p e. ground (arith, eq_iff "a" id);
}

reducer-IsValid_example : IsValid (participants_reducer one_here (participant_removed "a"))
reducer-IsValid_example = reducer-IsValid one_here (participant_removed "a") tt one_here-IsValid

reducer-roster_example :
    roster (participants_reducer one_here (speaking_changed ("a" ∷ []))) "a"
    ≡ roster_step (roster one_here) (speaking_changed ("a" ∷ [])) "a"
reducer-roster_example = reducer-roster one_here (speaking_changed ("a" ∷ [])) "a" one_here-IsValid

abbrev pinned : RootState
pinned = record initial {
  participants = one_here;
  session = record initial.session { pinned_participant_id = some "a" };
}

root-PinKnown_example : PinKnown (root_reducer 7 pinned (participant_removed "a"))
root-PinKnown_example = root-PinKnown 7 pinned (participant_removed "a") one_here-IsValid tt refl
