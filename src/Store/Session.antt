-- ===== src/Store/Session.antt =====
-- webapp/src/store/slice_session.ts. The time that CONNECTED reads is an argument.
use mattermost_plugin_openta.Base.{
  ℕ, String, Bool, false, Option, none, some, option_eq, if◌then◌else◌,
}
use mattermost_plugin_openta.Store.Action.{
  Action, connect_started, connected, participants_changed, disconnected, connect_error,
  set_mic_enabled, set_cam_enabled, set_screen_share_enabled, set_livekit_connected, set_expanded,
  set_minimized, set_raise_hands_enabled, set_is_host, set_pinned_participant,
  set_reconnect_attempt, participant_removed,
}

pub data SessionStatus : Type 0 where
  idle connecting is_connected leaving : SessionStatus

pub record SessionState : Type 0 where
  pub status : SessionStatus
  pub channel_id : Option String
  pub room_id : Option String
  pub participant_count : ℕ
  pub error : Option String
  pub mic_enabled : Bool
  pub cam_enabled : Bool
  pub screen_share_enabled : Bool
  pub livekit_connected : Bool
  pub is_host : Bool
  pub is_room_owner : Bool
  pub expanded : Bool
  pub minimized : Bool
  pub joined_at : Option ℕ
  pub raise_hands_enabled : Bool
  pub local_participant_id : Option String
  pub pinned_participant_id : Option String
  pub reconnect_attempt : ℕ

abbrev pub initial : SessionState
initial = record {
  status = idle;
  channel_id = none;
  room_id = none;
  participant_count = 0;
  error = none;
  mic_enabled = false;
  cam_enabled = false;
  screen_share_enabled = false;
  livekit_connected = false;
  is_host = false;
  is_room_owner = false;
  expanded = false;
  minimized = false;
  joined_at = none;
  raise_hands_enabled = false;
  local_participant_id = none;
  pinned_participant_id = none;
  reconnect_attempt = 0;
}

-- `x === true`
abbrev pub is_true : Option Bool → Bool
is_true (some b) = b
is_true none = false

unfoldable pub session_reducer : ℕ → SessionState → Action → SessionState
session_reducer now s (connect_started channel_id room_id) = record initial {
  status = connecting;
  channel_id = some channel_id;
  room_id = some room_id;
  reconnect_attempt = s.reconnect_attempt;
}
session_reducer now s (connected p) = record s {
  status = is_connected;
  participant_count = p.participant_count;
  is_host = is_true p.is_host;
  is_room_owner = is_true p.is_room_owner;
  local_participant_id = p.local_participant_id;
  error = none;
  joined_at = some now;
  reconnect_attempt = 0;
}
session_reducer now s (participants_changed n) = record s { participant_count = n }
session_reducer now s disconnected = record initial { reconnect_attempt = s.reconnect_attempt }
session_reducer now s (connect_error message) = record initial {
  error = some message;
  reconnect_attempt = s.reconnect_attempt;
}
session_reducer now s (set_mic_enabled b) = record s { mic_enabled = b }
session_reducer now s (set_cam_enabled b) = record s { cam_enabled = b }
session_reducer now s (set_screen_share_enabled b) = record s { screen_share_enabled = b }
session_reducer now s (set_livekit_connected b) = record s { livekit_connected = b }
session_reducer now s (set_expanded b) = record s { expanded = b }
session_reducer now s (set_minimized b) = record s { minimized = b }
session_reducer now s (set_raise_hands_enabled b) = record s { raise_hands_enabled = b }
session_reducer now s (set_is_host b) = record s { is_host = b }
session_reducer now s (set_pinned_participant id) = record s { pinned_participant_id = id }
session_reducer now s (set_reconnect_attempt n) = record s { reconnect_attempt = n }
session_reducer now s (participant_removed id) =
    if option_eq s.pinned_participant_id (some id)
    then record s { pinned_participant_id = none }
    else s
session_reducer now s _ = s
