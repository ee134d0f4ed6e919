-- ===== src/Tests/Components.antt =====
-- The theorems on components, at small stores.
use mathlib.Core.List.{Perm}
use mattermost_plugin_openta.Base.{
  ◌≡◌, refl, ◌⊎◌, some, none, [], ◌∷◌, List, String, ℕ, false, true, Bool, eq_iff, arith,
}
use mattermost_plugin_openta.Store.Action.{
  IncomingCall, ParticipantInfo, info, error, notice_set, ConnectedPayload,
}
use mattermost_plugin_openta.Store.Action
use mattermost_plugin_openta.Store.Root.{RootState, initial, root_reducer}
use mattermost_plugin_openta.Store.Notice.{notice_reducer}
use mattermost_plugin_openta.Store.Session.{idle, is_connected, session_reducer}
use mattermost_plugin_openta.Store.Participants.Invariant.{IsValid}
use mattermost_plugin_openta.Controller.State.{dispatch, Controller, Attempt}
use mattermost_plugin_openta.Controller.Calls
use mattermost_plugin_openta.Controller.Calls.{Happening, writes, leaves, end_active_meeting}
use mattermost_plugin_openta.Hooks.LayoutMode.{speaker}
use mattermost_plugin_openta.Components.Ringing.{shown_incoming, shown_switch}
use mattermost_plugin_openta.Components.Ringing.Latest.{
  IsEmpty, IsNewest, AllDismissed, windows-latest,
}
use mattermost_plugin_openta.Components.Layouts.{tiles, strip}
use mattermost_plugin_openta.Components.Layouts.Everyone.{tiles-perm}
use mattermost_plugin_openta.Components.Layouts.Strip.{AreRemotes, Shows, strip-Shows}
use mattermost_plugin_openta.Components.Leaving.{
  Views, ViewEvent, expanded_hangup, mini_answer, end_for_all, escapes,
}
use mattermost_plugin_openta.Components.Leaving
use mattermost_plugin_openta.Components.Leaving.Prompts.{IsAttached, run-IsAttached}
use mattermost_plugin_openta.Components.Notices.{BannerEvent, fires, mount, happens}
use mattermost_plugin_openta.Components.Notices
use mattermost_plugin_openta.Components.Notices.Timed.{run-fires}

abbrev pub call : String → ℕ → IncomingCall
call id at = record {
  channel_id = id;
  room_id = "r";
  host_user_id = "bob";
  host_name = "Bob";
  received_at = at;
  dismissed = some false;
}

abbrev ringing : RootState
ringing = record initial {
  incoming_calls = record { calls = ("c", call "c" 5) ∷ ("d", call "d" 9) ∷ [] };
}

windows-latest_example :
    (IsEmpty (shown_incoming ringing) ⊎ IsEmpty (shown_switch ringing))
    × IsNewest (shown_incoming ringing) ringing.incoming_calls.calls
    × IsNewest (shown_switch ringing) ringing.incoming_calls.calls
    × (ringing.session.status ≡ idle
        → IsEmpty (shown_incoming ringing)
        → AllDismissed ringing.incoming_calls.calls)
windows-latest_example = windows-latest ringing

abbrev person : String → ParticipantInfo
person id = record {
  id = id;
  display_name = id;
  role = none;
  is_host = none;
  is_speaking = none;
  hand_raised = none;
  muted = none;
  camera_off = none;
}

-- `b` is pinned, and `a` is the local participant.
abbrev two : RootState
two = record initial {
  participants = record {
    by_id = ("a", person "a") ∷ ("b", person "b") ∷ [];
    order = "a" ∷ "b" ∷ [];
  };
  session = record initial.session {
    pinned_participant_id = some "b";
    local_participant_id = some "a";
  };
}

two-IsValid : IsValid two.participants
two-IsValid = record {
  distinct = (refl, (refl, tt));
  keys = λ id. ground arith;
  own_id = λ id p e. ground (arith, eq_iff "a" id, eq_iff "b" id);
}

tiles-perm_example : Perm (tiles speaker two) ("a" ∷ "b" ∷ [])
tiles-perm_example = tiles-perm speaker two two-IsValid

pinned_first : tiles speaker two ≡ "b" ∷ "a" ∷ []
unfolding tiles
pinned_first = refl

strip-Shows_example :
    (ids : List String) × AreRemotes two.session.local_participant_id two.participants.order ids
    × Shows ids (strip two)
strip-Shows_example = strip-Shows two two-IsValid

abbrev attempt : Attempt
attempt = record {
  place = record { room_id = "r"; channel_id = "c"; display_name = "Alice" };
  owner = none;
  notify_on_failure = true;
  join_settled = true;
  terminal_close = false;
  error_dispatched = false;
}

-- A call of the user's own room.
abbrev pub hosting : (expanded : Bool) → Controller
hosting expanded = record {
  root = record initial {
    session = record initial.session {
      status = is_connected;
      is_room_owner = true;
      expanded = expanded;
    };
  };
  now = 7;
  has_store = true;
  client = some 0;
  livekit = none;
  heartbeat = none;
  tearing_down = none;
  rejoin = none;
  media_restore = none;
  attempts = λ k. attempt;
  livekit_client = λ k. 0;
  german = false;
  fresh = 1;
  ready = [];
  mic_toggle = none;
  cam_toggle = none;
  screen_toggle = none;
  registry = [];
  log = [];
}

abbrev views : (expanded mini : Bool) → Views
views expanded mini = record {
  controller = hosting expanded;
  mini_prompt = mini;
  expanded_prompt = false;
  was_active = expanded;
}

abbrev clicks : List ViewEvent
clicks = expanded_hangup (some "O") ∷ escapes ∷ Leaving.happens leaves ∷ []

run-IsAttached_example : IsAttached (Leaving.run clicks (views true false))
run-IsAttached_example =
    run-IsAttached clicks (views true false) (record { current = refl; open_only = λ o. cc })

-- The meeting ends, and the user is in another one, which is not their own.
abbrev another : List ViewEvent
another =
    Leaving.happens (writes Action.disconnected)
    ∷ Leaving.happens (
        writes (
          Action.connected (record {
            participant_count = 2;
            is_host = some false;
            is_room_owner = some false;
            local_participant_id = some "a";
          })))
    ∷ []

another_shown : Leaving.is_mini (Leaving.run another (views false true)).controller ≡ true
unfolding Leaving.run Leaving.step Calls.step dispatch root_reducer session_reducer
another_shown = refl

-- An open prompt of the mini bar stays open meanwhile.
prompt_carried : (Leaving.run another (views false true)).mini_prompt ≡ true
unfolding Leaving.run Leaving.step
prompt_carried = refl

-- An information, then an error.
abbrev notices : List BannerEvent
notices =
    happens (writes (notice_set "saved" (some info)))
    ∷ happens (writes (notice_set "failed" (some error)))
    ∷ []

failed_last :
    Notices.is_info (Notices.run notices (mount (hosting false))).controller.root.notice.kind
    ≡ false
unfolding Notices.run Notices.step Calls.step dispatch root_reducer notice_reducer
failed_last = refl

run-fires_example :
    Notices.step fires (Notices.run notices (mount (hosting false)))
    ≡ Notices.run notices (mount (hosting false))
run-fires_example = run-fires notices (hosting false) failed_last
