-- ===== src/Store/Root.antt =====
-- webapp/src/store/reducer.ts, the plugin's part of the Redux state, and the selectors over it of
-- webapp/src/util/selectors.ts. Every slice is present, as it is once the reducer is registered.
pub mod Pins
pub mod Sharing
use mattermost_plugin_openta.Base.{
  ℕ, String, Bool, Option, none, some, List, [], ◌∷◌, Dict, lookup, truthy_option, if◌then◌else◌,
}
use mattermost_plugin_openta.Store.Action.{Action}
use mattermost_plugin_openta.Store.Participants.{ParticipantsState, participants_reducer}
use mattermost_plugin_openta.Store.Participants
use mattermost_plugin_openta.Store.Session.{SessionState, SessionStatus, session_reducer}
use mattermost_plugin_openta.Store.Session
use mattermost_plugin_openta.Store.Tracks.{TracksState, ParticipantTracks, tracks_reducer}
use mattermost_plugin_openta.Store.Tracks
use mattermost_plugin_openta.Store.Calls.{
  IncomingCallsState, ActiveMeetingsState, incoming_calls_reducer, active_meetings_reducer,
}
use mattermost_plugin_openta.Store.Notice.{
  NoticeState, OAuthState, notice_reducer, oauth_reducer, no_notice, not_connected,
}

pub record RootState : Type 0 where
  pub active_meetings : ActiveMeetingsState
  pub incoming_calls : IncomingCallsState
  pub notice : NoticeState
  pub oauth : OAuthState
  pub participants : ParticipantsState
  pub session : SessionState
  pub tracks : TracksState

-- `combineReducers`: each slice takes each action. The first argument is the time.
unfoldable pub root_reducer : ℕ → RootState → Action → RootState
root_reducer now s a = record {
  active_meetings = active_meetings_reducer s.active_meetings a;
  incoming_calls = incoming_calls_reducer s.incoming_calls a;
  notice = notice_reducer s.notice a;
  oauth = oauth_reducer s.oauth a;
  participants = participants_reducer s.participants a;
  session = session_reducer now s.session a;
  tracks = tracks_reducer s.tracks a;
}

abbrev pub initial : RootState
initial = record {
  active_meetings = record { meetings = [] };
  incoming_calls = record { calls = [] };
  notice = no_notice;
  oauth = not_connected;
  participants = Participants.initial;
  session = Session.initial;
  tracks = Tracks.initial;
}

abbrev pub select_channel_id : RootState → Option String
select_channel_id s = s.session.channel_id

abbrev pub select_local_participant_id : RootState → Option String
select_local_participant_id s = s.session.local_participant_id

abbrev pub select_mic_enabled : RootState → Bool
select_mic_enabled s = s.session.mic_enabled

abbrev pub select_cam_enabled : RootState → Bool
select_cam_enabled s = s.session.cam_enabled

abbrev pub select_reconnect_attempt : RootState → ℕ
select_reconnect_attempt s = s.session.reconnect_attempt

-- `Boolean(perParticipant[id]?.screenTrackId)`
abbrev has_screen : Option ParticipantTracks → Bool
has_screen none = Bool.false
has_screen (some t) = truthy_option t.screen_track_id

find_sharer : Dict ParticipantTracks → List String → Option String
find_sharer tracks [] = none
find_sharer tracks (id ∷ ids) =
    if has_screen (lookup id tracks) then some id else find_sharer tracks ids

pub select_screen_sharer_id : RootState → Option String
unfolding find_sharer
select_screen_sharer_id s = find_sharer s.tracks.per_participant s.participants.order
