-- ===== src/Tests/Media.antt =====
-- The theorems on local media, the picker and the settings for devices, at concrete inputs.
use mattermost_plugin_openta.Base.{some, inr, ◌≡◌, refl, true, false, none, some, List, [], ◌∷◌}
use mattermost_plugin_openta.Signaling.RoomState.{Room, new_room, authenticating}
use mattermost_plugin_openta.Signaling.Room
use mattermost_plugin_openta.Plugin.Rest.{Answer, answered}
use mattermost_plugin_openta.Signaling.Value.{obj, field, end, str}
use mattermost_plugin_openta.Conference.Client.{get_ticket}
use mattermost_plugin_openta.Conference.Client.Tickets.{Opens, answer-settles}
use mattermost_plugin_openta.Conference.Media.{
  SourceEvent, enables, disables, acquired, published, unpublished, run,
}
use mattermost_plugin_openta.Conference.Media.Phases.{off, phase_run, variables, run-phase}
use mattermost_plugin_openta.Conference.Picker.{
  DesktopSource, PickerCall, picks, resolves, subscribes, new_picker,
}
use mattermost_plugin_openta.Conference.Picker
use mattermost_plugin_openta.Conference.Picker.Settling.{IsSettling, run-IsSettling}

-- Two calls share a publication, the track is withdrawn and published again, which fails.
abbrev presses : List SourceEvent
presses =
    enables
    ∷ enables
    ∷ acquired true
    ∷ published true
    ∷ disables
    ∷ enables
    ∷ unpublished 0 true
    ∷ enables
    ∷ acquired true
    ∷ published false
    ∷ []

run-phase_example : run presses (variables (off, 0)) ≡ variables (phase_run presses (off, 0))
run-phase_example = run-phase presses (off, 0) refl

-- A second picker replaces the first, and the user picks.
abbrev picker_calls : List PickerCall
picker_calls =
    subscribes 0
    ∷ picks (record { id = "screen:0"; name = "Screen"; thumbnail_url = "" } ∷ [])
    ∷ picks []
    ∷ resolves (some "screen:1")
    ∷ resolves none
    ∷ []

run-IsSettling_example : IsSettling (Picker.run picker_calls new_picker)
run-IsSettling_example = run-IsSettling picker_calls

-- A room that asks for its ticket, and a server that refuses.
abbrev asking : Room
asking = record (new_room (record { usable = true; items = [] })) {
  state = authenticating;
  ticket_pending = true;
}

-- An answer with a ticket and no URL.
abbrev answer : Answer
answer = answered 200 "" (obj (field "ticket" (str "t") end))

answer-settles_example : Opens "" "t" asking (Room.step (get_ticket answer) asking)
unfolding new_room
answer-settles_example =
    answer-settles answer (some ("", "t")) asking refl refl (refl, refl, inr (refl, refl))
