-- ===== src/Store/Selectors.antt =====
-- The other selectors of webapp/src/util/selectors.ts: those that read a field of the plugin's state,
-- and those of the host application's.
use mattermost_plugin_openta.Base.{
  ℕ, String, Bool, Option, none, some, List, Dict, lookup, truthy, if◌then◌else◌,
}
use mattermost_plugin_openta.Store.Action.{ParticipantInfo, IncomingCall, ActiveMeeting}
use mattermost_plugin_openta.Store.Session.{SessionState, SessionStatus}
use mattermost_plugin_openta.Store.Tracks.{ParticipantTracks}
use mattermost_plugin_openta.Store.Notice.{NoticeState}
use mattermost_plugin_openta.Store.Root.{RootState}

abbrev pub select_session_status : RootState → SessionStatus
select_session_status s = s.session.status

abbrev pub select_is_host : RootState → Bool
select_is_host s = s.session.is_host

abbrev pub select_is_room_owner : RootState → Bool
select_is_room_owner s = s.session.is_room_owner

abbrev pub select_pinned_participant_id : RootState → Option String
select_pinned_participant_id s = s.session.pinned_participant_id

abbrev pub select_is_expanded : RootState → Bool
select_is_expanded s = s.session.expanded

abbrev pub select_is_minimized : RootState → Bool
select_is_minimized s = s.session.minimized

abbrev pub select_joined_at : RootState → Option ℕ
select_joined_at s = s.session.joined_at

abbrev pub select_session : RootState → SessionState
select_session s = s.session

abbrev pub select_screen_share_enabled : RootState → Bool
select_screen_share_enabled s = s.session.screen_share_enabled

abbrev pub select_participant_order : RootState → List String
select_participant_order s = s.participants.order

abbrev pub select_participants_by_id : RootState → Dict ParticipantInfo
select_participants_by_id s = s.participants.by_id

abbrev pub select_tracks_per_participant : RootState → Dict ParticipantTracks
select_tracks_per_participant s = s.tracks.per_participant

abbrev pub select_active_speakers : RootState → List String
select_active_speakers s = s.tracks.active_speakers

abbrev pub select_incoming_calls_by_channel_id : RootState → Dict IncomingCall
select_incoming_calls_by_channel_id s = s.incoming_calls.calls

abbrev pub select_oauth_connected : RootState → Bool
select_oauth_connected s = s.oauth.connected

abbrev pub select_notice : RootState → NoticeState
select_notice s = s.notice

abbrev pub select_active_meetings_by_channel_id : RootState → Dict ActiveMeeting
select_active_meetings_by_channel_id s = s.active_meetings.meetings

-- What is read of the host application's users and channels.
pub record HostChannel : Type 0 where
  pub channel_type : Option String
  pub display_name : Option String

pub record Entities : Type 0 where
  pub current_user_id : Option String
  -- the locale of each profile
  pub locales : Dict (Option String)
  pub current_channel_id : Option String
  pub channels : Dict HostChannel

abbrev pub select_current_user_id : Entities → Option String
select_current_user_id e = e.current_user_id

abbrev flat : Option (Option String) → Option String
flat none = none
flat (some o) = o

abbrev entry {ℓ} : {V : Type ℓ} → Option String → Dict V → Option V
entry none d = none
entry (some id) d = if truthy id then lookup id d else none

unfoldable pub select_current_user_locale : Entities → Option String
select_current_user_locale e = flat (entry e.current_user_id e.locales)

abbrev pub select_current_channel_id : Entities → Option String
select_current_channel_id e = e.current_channel_id

abbrev type_of : Option HostChannel → Option String
type_of none = none
type_of (some c) = c.channel_type

unfoldable pub select_channel_type : Entities → Option String → Option String
select_channel_type e id = type_of (entry id e.channels)

abbrev name_of : Option HostChannel → Option String
name_of none = none
name_of (some c) = c.display_name

unfoldable pub select_channel_display_name : Entities → Option String → Option String
select_channel_display_name e id = name_of (entry id e.channels)
