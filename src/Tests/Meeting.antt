-- ===== src/Tests/Meeting.antt =====
-- The theorem on a room with its controller, at a join with one other participant, who leaves after a
-- third has come.
use mattermost_plugin_openta.Base.{
  String, ◌≡◌, refl, true, false, Option, none, some, List, [], ◌∷◌,
}
use mattermost_plugin_openta.Store.Action.{Role, user}
use mattermost_plugin_openta.Store.Root.{initial, root_reducer}
use mattermost_plugin_openta.Store.Participants.{participants_reducer}
use mattermost_plugin_openta.Store.Session.{session_reducer}
use mattermost_plugin_openta.Signaling.Case.{snake_to_camel}
use mattermost_plugin_openta.Signaling.Wire.{normalize}
use mattermost_plugin_openta.Signaling.Messages.{
  classify, handle, on_join_success, normalize_items, normalize_participant, credentials_of,
  on_joined, on_left, on_hand,
}
use mattermost_plugin_openta.Signaling.Value.{Value, str, obj, arr, cons, nil, field, end}
use mattermost_plugin_openta.Signaling.RoomState.{RoomError, connecting, new_room, emit}
use mattermost_plugin_openta.Signaling.Room.{on_message, Input, message, commands, raise_hand}
use mattermost_plugin_openta.Controller.State.{dispatch, Attempt}
use mattermost_plugin_openta.Signaling.Room
use mattermost_plugin_openta.Controller.Events.{
  on_connected, start_heartbeat, bring_up_livekit, infos, to_participant_info,
  on_participant_joined, on_participant_left, on_hand_raised,
}
use mattermost_plugin_openta.Meeting.{Meeting, run, happens, deliver}
use mattermost_plugin_openta.Meeting.Entering.{Follows}
use mattermost_plugin_openta.Meeting.Steady.{run-Follows}

abbrev frame : String → Value → Value
frame a id = obj (
    field "namespace" (str "control")
      (field "payload" (obj (field "action" (str a) (field "id" id end))) end))

abbrev acceptance : Value
acceptance = obj (
    field "namespace" (str "control") (
      field "payload"
        (obj (
          field "action" (str "joinSuccess") (
            field "id" (str "a")
              (field "participants" (arr (cons (obj (field "id" (str "b") end)) nil)) end))))
        end))

abbrev attempt : Attempt
attempt = record {
  place = record { room_id = "r"; channel_id = "c"; display_name = "Alice" };
  owner = none;
  notify_on_failure = true;
  join_settled = false;
  terminal_close = false;
  error_dispatched = false;
}

abbrev joining : Meeting
joining = record {
  room = record (new_room (record { usable = true; items = [] })) {
    state = connecting;
    has_socket = true;
    bound = true;
    waiting = true;
  };
  controller = record {
    root = initial;
    now = 7;
    has_store = true;
    client = some 0;
    livekit = none;
    heartbeat = none;
    tearing_down = none;
    rejoin = none;
    media_restore = none;
    attempts = λ k. attempt;
    livekit_client = λ k. 0;
    german = false;
    fresh = 1;
    ready = [];
    mic_toggle = none;
    cam_toggle = none;
    screen_toggle = none;
    registry = [];
    log = [];
  };
}

abbrev as_user : Option String → Role
as_user role = user

abbrev no_text : RoomError → String
no_text e = ""

abbrev later : List Input
later =
    message (frame "joined" (str "c"))
    ∷ commands raise_hand
    ∷ message (frame "handRaised" (str "a"))
    ∷ message (frame "left" (str "b"))
    ∷ []

-- Two participants are left.
two_left :
    (run as_user no_text 0 (message acceptance ∷ later) joining).controller.root.participants.order
    ≡ "a" ∷ "c" ∷ []
unfolding run happens deliver Room.step on_message Room.command normalize snake_to_camel classify
    handle on_join_success normalize_items normalize_participant credentials_of on_joined on_left
    on_hand emit new_room on_connected start_heartbeat bring_up_livekit infos to_participant_info
    on_participant_joined on_participant_left on_hand_raised dispatch root_reducer
    participants_reducer session_reducer
two_left = refl

run-Follows_example : Follows (run as_user no_text 0 (message acceptance ∷ later) joining)
unfolding normalize snake_to_camel classify normalize_participant new_room normalize_items
run-Follows_example =
    run-Follows as_user no_text 0 acceptance later joining
      (record {
        frame = record {
          namespace = "control";
          action = "joinSuccess";
          rest =
              field "id" (str "a")
                (field "participants" (arr (cons (obj (field "id" (str "b") end)) nil)) end);
        };
        others = record { id = some "b"; display_name = some "b"; role = none } ∷ [];
        parsed = refl;
        accepts = refl;
        listed = refl;
        connecting = refl;
        listening = (refl, refl);
        named = (refl, (refl, tt));
        distinct = (refl, (refl, tt));
        valid = record { distinct = tt; keys = λ id. refl; own_id = λ id p e. cc };
      })
      (refl, (refl, (refl, (refl, tt))))
