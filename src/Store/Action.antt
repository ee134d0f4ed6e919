-- ===== src/Store/Action.antt =====
-- The Redux actions of the plugin's slices and the records that they carry: the action creators of
-- webapp/src/store/slice_*.ts. Every reducer is given every action.
use mattermost_plugin_openta.Base.{ℕ, String, Bool, Option, List}

pub data Role : Type 0 where
  moderator user guest : Role

-- An optional field is `none` where it is undefined. In the payload of `participant_added` the
-- fields `id`, `display_name` and `role` are own properties, `role` also where it is undefined, and
-- each other field is one only where it has a value.
pub record ParticipantInfo : Type 0 where
  pub id : String
  pub display_name : String
  pub role : Option Role
  pub is_host : Option Bool
  pub is_speaking : Option Bool
  pub hand_raised : Option Bool
  pub muted : Option Bool
  pub camera_off : Option Bool

pub data TrackKind : Type 0 where
  audio video screen : TrackKind

-- An entry of the slices `incomingCalls` and `activeMeetings`; times are in milliseconds.
pub record IncomingCall : Type 0 where
  pub channel_id : String
  pub room_id : String
  pub host_user_id : String
  pub host_name : String
  pub received_at : ℕ
  pub dismissed : Option Bool

pub record ActiveMeeting : Type 0 where
  pub channel_id : String
  pub room_id : String
  pub host_user_id : String
  pub host_name : String
  pub post_id : Option String
  pub received_at : ℕ
  pub dismissed : Option Bool

pub data NoticeKind : Type 0 where
  error info : NoticeKind

pub record ConnectedPayload : Type 0 where
  pub participant_count : ℕ
  pub is_host : Option Bool
  pub is_room_owner : Option Bool
  pub local_participant_id : Option String

pub data Action : Type 0 where
  -- slice_session.ts
  connect_started : (channel_id room_id : String) → Action
  connected : ConnectedPayload → Action
  participants_changed : (participant_count : ℕ) → Action
  disconnected : Action
  connect_error : (message : String) → Action
  set_mic_enabled set_cam_enabled set_screen_share_enabled : Bool → Action
  set_livekit_connected set_expanded set_minimized : Bool → Action
  set_raise_hands_enabled set_is_host : Bool → Action
  set_pinned_participant : Option String → Action
  set_reconnect_attempt : ℕ → Action
  -- slice_participants.ts
  participant_added : ParticipantInfo → Action
  participant_removed : (id : String) → Action
  participants_bulk_set : List ParticipantInfo → Action
  speaking_changed : (speakers : List String) → Action
  participants_reset : Action
  hand_raised hand_lowered : (participant_id : String) → Action
  participant_media_changed : (id : String) (muted camera_off : Option Bool) → Action
  participant_role_changed : (id : String) → Role → Action
  -- slice_tracks.ts
  track_subscribed : (participant_id : String) → TrackKind → (track_id : String) → Action
  track_unsubscribed : (participant_id : String) → TrackKind → Action
  active_speakers_changed : (speakers : List String) → Action
  tracks_reset : Action
  -- slice_incoming_calls.ts
  incoming_call_received : IncomingCall → Action
  incoming_call_dismissed incoming_call_cleared : (channel_id : String) → Action
  incoming_calls_reset : Action
  -- slice_active_meetings.ts
  active_meeting_started : ActiveMeeting → Action
  active_meeting_ended active_meeting_dismissed : (channel_id : String) → Action
  -- slice_notice.ts
  notice_set : (message : String) → Option NoticeKind → Action
  notice_cleared : Action
  -- slice_oauth.ts
  set_connected : Bool → (email : Option String) → Action
  -- an action of another reducer of the host application
  foreign : Action
