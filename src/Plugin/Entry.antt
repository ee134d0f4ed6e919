-- ===== src/Plugin/Entry.antt =====
-- The websocket handlers and the life of the plugin (webapp/src/plugin.ts).
pub mod Rings
pub mod Own
pub mod Ending
use mattermost_plugin_openta.Base.{
  ℕ, String, Bool, true, false, not, ◌&&◌, ◌||◌, Option, none, some, List, [], ◌∷◌, ◌==◌, truthy,
  option_eq, if◌then◌else◌,
}
use mattermost_plugin_openta.Store.Action.{
  IncomingCall, ActiveMeeting, set_connected, incoming_call_cleared, incoming_calls_reset,
  incoming_call_received, active_meeting_started, active_meeting_ended,
}
use mattermost_plugin_openta.Store.Root.{RootState}
use mattermost_plugin_openta.Store.Session.{SessionStatus, idle, is_true}
use mattermost_plugin_openta.Controller.State.{Controller, dispatch}
use mattermost_plugin_openta.Controller.Calls.{
  Happening, leave_active_conference, active_conference_channel_id,
}
use mattermost_plugin_openta.Controller.Calls
use mattermost_plugin_openta.Plugin.Ringtone.{RingSetting, apply_ringtone_local, write_ringtone}

-- `IncomingCallMessage` and `MeetingStartedMessage`
pub record MeetingMessage : Type 0 where
  pub channel_id : String
  pub room_id : String
  pub host_user_id : String
  pub host_name : String
  pub post_id : Option String

-- `MeResponse`
pub record MeResponse : Type 0 where
  pub connected : Bool
  pub email : Option String
  pub ringtone_enabled : Option Bool

-- The controller with its store, the current user of the host application, and the setting for rings.
pub record Host : Type 0 where
  pub controller : Controller
  pub user_id : Option String
  pub rings : RingSetting

abbrev pub in_controller : (Controller → Controller) → Host → Host
in_controller f h = record h { controller = f h.controller }

unfoldable pub on_user_connected_state :
    (connected : Option Bool) (email : Option String) → Host → Host
on_user_connected_state connected email h =
    in_controller (dispatch (set_connected (is_true connected) email)) h

abbrev pub is_in_channel : String → Controller → Bool
is_in_channel channel_id w = option_eq (active_conference_channel_id w) (some channel_id)

unfoldable pub on_meeting_ended : (channel_id : String) → Host → Host
on_meeting_ended channel_id h =
    let w = h.controller in
    let q = if is_in_channel channel_id w then leave_active_conference w else w in
    record h {
      controller =
          dispatch (active_meeting_ended channel_id)
            (dispatch (incoming_call_cleared channel_id) q);
    }

abbrev pub meeting_of : ℕ → MeetingMessage → ActiveMeeting
meeting_of now m = record {
  channel_id = m.channel_id;
  room_id = m.room_id;
  host_user_id = m.host_user_id;
  host_name = m.host_name;
  post_id = m.post_id;
  received_at = now;
  dismissed = none;
}

unfoldable pub on_meeting_started : MeetingMessage → Host → Host
on_meeting_started m h =
    in_controller (dispatch (active_meeting_started (meeting_of h.controller.now m))) h

abbrev pub call_of : ℕ → MeetingMessage → IncomingCall
call_of now m = record {
  channel_id = m.channel_id;
  room_id = m.room_id;
  host_user_id = m.host_user_id;
  host_name = m.host_name;
  received_at = now;
  dismissed = none;
}

-- `Boolean(myId && hostUserId === myId)`
abbrev pub is_own_call : Option String → (host_user_id : String) → Bool
is_own_call none host = false
is_own_call (some me) host = truthy me && host == me

abbrev is_idle : SessionStatus → Bool
is_idle idle = true
is_idle _ = false

-- `alreadyHere`
abbrev pub is_already_here : RootState → (channel_id : String) → Bool
is_already_here s channel_id =
    not (is_idle s.session.status) && option_eq s.session.channel_id (some channel_id)

abbrev pub is_ignored : MeetingMessage → Host → Bool
is_ignored m h =
    is_own_call h.user_id m.host_user_id || is_already_here h.controller.root m.channel_id

unfoldable pub on_incoming_call : MeetingMessage → Host → Host
on_incoming_call m h =
    if is_ignored m h
    then h
    else in_controller (dispatch (incoming_call_received (call_of h.controller.now m))) h

unfoldable pub on_ring_setting_changed : (user_id : String) → (enabled : Bool) → Host → Host
on_ring_setting_changed user_id enabled h =
    if option_eq (some user_id) h.user_id
    then record h { rings = apply_ringtone_local enabled h.rings }
    else h

unfoldable pub on_incoming_call_dismissed : (channel_id user_id : String) → Host → Host
on_incoming_call_dismissed channel_id user_id h =
    if option_eq (some user_id) h.user_id
    then in_controller (dispatch (incoming_call_cleared channel_id)) h
    else h

-- The message is about the user and the channel of the call; `undefined` equals itself.
abbrev pub is_removed : (user_id : String) → (channel_id : Option String) → Host → Bool
is_removed user_id channel_id h =
    option_eq (some user_id) h.user_id
    && option_eq (active_conference_channel_id h.controller) channel_id

unfoldable pub on_user_removed : (user_id : String) → (channel_id : Option String) → Host → Host
on_user_removed user_id channel_id h =
    if is_removed user_id channel_id h then in_controller leave_active_conference h else h

abbrev seed_ringtone : Option Bool → Host → Host
seed_ringtone none h = h
seed_ringtone (some enabled) h = record h { rings = apply_ringtone_local enabled h.rings }

-- `seedConnectionStatus` after its request; `none` where that failed.
unfoldable pub on_seeded : Option MeResponse → Host → Host
on_seeded none h = h
on_seeded (some me) h =
    seed_ringtone me.ringtone_enabled
      (in_controller (dispatch (set_connected me.connected me.email)) h)

-- `window.opentalk.killRing`
unfoldable pub kill_ring : Host → Host
kill_ring h =
    let q = in_controller (dispatch incoming_calls_reset) h in
    record q { rings = write_ringtone false q.rings }

unfoldable pub uninitialize : Host → Host
uninitialize h = in_controller leave_active_conference h

pub data PluginEvent : Type 0 where
  user_connected_state : (connected : Option Bool) (email : Option String) → PluginEvent
  meeting_ended : (channel_id : String) → PluginEvent
  meeting_started incoming_call : MeetingMessage → PluginEvent
  ring_setting_changed : (user_id : String) → (enabled : Bool) → PluginEvent
  incoming_call_dismissed : (channel_id user_id : String) → PluginEvent
  user_removed : (user_id : String) → (channel_id : Option String) → PluginEvent
  seeded : Option MeResponse → PluginEvent
  kills_ring uninitialized : PluginEvent
  -- anything that happens to the controller
  happens : Happening → PluginEvent

unfoldable pub step : PluginEvent → Host → Host
step (user_connected_state connected email) h = on_user_connected_state connected email h
step (meeting_ended channel_id) h = on_meeting_ended channel_id h
step (meeting_started m) h = on_meeting_started m h
step (incoming_call m) h = on_incoming_call m h
step (ring_setting_changed user_id enabled) h = on_ring_setting_changed user_id enabled h
step (incoming_call_dismissed channel_id user_id) h =
    on_incoming_call_dismissed channel_id user_id h
step (user_removed user_id channel_id) h = on_user_removed user_id channel_id h
step (seeded me) h = on_seeded me h
step kills_ring h = kill_ring h
step uninitialized h = uninitialize h
step (happens e) h = in_controller (Calls.step e) h

unfoldable pub run : List PluginEvent → Host → Host
run [] h = h
run (e ∷ es) h = run es (step e h)
