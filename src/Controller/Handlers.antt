-- ===== src/Controller/Handlers.antt =====
-- What the handlers of room events and the local user's calls can do to the controller: they write
-- certain actions to the store, keep the registry and the toggles, and ask the world for something,
-- but connect no client.
pub mod Toggles
pub mod Steps
use mattermost_plugin_openta.Base.{
  ℕ, String, ◌≡◌, refl, Bool, true, false, Option, none, some, List, [], ◌∷◌, if◌then◌else◌,
  Bool-cases, inl, inr, remove, not, is_some,
}
use mattermost_plugin_openta.Store.Action
use mattermost_plugin_openta.Store.Action.{Action, Role, TrackKind}
use mattermost_plugin_openta.Signaling.RoomState.{Participant}
use mattermost_plugin_openta.Signaling.Room.{Command}
use mattermost_plugin_openta.Controller.State.{
  Controller, LocalMediaState, Switch, turning_on, turning_off, ScreenStage, withdrawing, capturing,
  listing, picking, capturing_source, Outgoing, connect_client, dispatch, act,
}
use mattermost_plugin_openta.Controller.Events.{
  on_force_muted, on_role_updated, on_mic_published, on_cam_published, on_track_subscribed,
  on_track_unsubscribed, on_active_speakers, on_mic_muted, on_camera_muted, on_screen_share_ended,
  on_participant_joined, on_participant_left, on_livekit_connected, on_hand_raised, on_hand_lowered,
  on_raise_hands_toggled,
}
use mattermost_plugin_openta.Controller.Local.{
  toggle_mic, mic_toggle_settles, toggle_cam, cam_toggle_settles, apply_mic_device_change,
  mic_withdrawn, mic_republished, apply_cam_device_change, cam_withdrawn, cam_republished,
  toggle_screen_share, ScreenResult, withdrawn, captured, not_captured, listed, not_listed, picked,
  screen_settles, with_client, mute_all, switch_mic, mic_switched, register_local_cam_track,
  hide_cam, switch_cam, cam_switched, withdraw_mic, republish_mic, withdraw_cam, show_cam,
  switch_screen, show_screen, shares, screen_next, after_pick, tell, live_room, others,
}
use mattermost_plugin_openta.Controller.Calls.{
  Happening, client_joined, client_left, client_force_muted, client_role_updated, client_hand,
  client_raise_hands, media_connected, mic_published, cam_published, track_added, track_gone,
  speakers, mic_muted, camera_muted, share_ended, toggles_mic, mic_toggled, toggles_cam,
  cam_toggled, toggles_screen, screen_result, mic_changes, mic_off, mic_on, cam_changes, cam_off,
  cam_on, commands, mutes_all, step,
}

-- The actions of the slices that belong to a call, and the notices.
abbrev pub is_own : Action → Bool
is_own (Action.set_expanded b) = false
is_own (Action.set_minimized b) = false
is_own (Action.set_pinned_participant id) = false
is_own (Action.incoming_call_received c) = false
is_own (Action.incoming_call_dismissed c) = false
is_own (Action.incoming_call_cleared c) = false
is_own Action.incoming_calls_reset = false
is_own (Action.active_meeting_started m) = false
is_own (Action.active_meeting_ended c) = false
is_own (Action.active_meeting_dismissed c) = false
is_own Action.notice_cleared = false
is_own (Action.set_connected b e) = false
is_own Action.foreign = false
is_own _ = true

abbrev pub connects_client : Outgoing → Bool
connects_client (connect_client k place) = true
connects_client _ = false

-- The handlers and calls that neither join, leave nor tear down.
abbrev pub is_local : Happening → Bool
is_local (client_joined p n) = true
is_local (client_left id n) = true
is_local client_force_muted = true
is_local (client_role_updated id role) = true
is_local (client_hand id raised) = true
is_local (client_raise_hands b) = true
is_local (media_connected lk mute) = true
is_local (mic_published b) = true
is_local (cam_published b c d e) = true
is_local (track_added id k o) = true
is_local (track_gone id k o) = true
is_local (speakers ids) = true
is_local (mic_muted a b c) = true
is_local (camera_muted a b) = true
is_local (share_ended a b) = true
is_local (toggles_mic b) = true
is_local (mic_toggled b) = true
is_local (toggles_cam b id) = true
is_local (cam_toggled a b id) = true
is_local (toggles_screen b id) = true
is_local (screen_result r e id) = true
is_local (mic_changes b) = true
is_local (mic_off b) = true
is_local (mic_on b) = true
is_local (cam_changes b id) = true
is_local (cam_off lk b) = true
is_local (cam_on a b id) = true
is_local (commands c) = true
is_local (mutes_all ps) = true
is_local _ = false

-- A predicate on the controller that the writes, the kept variables and the requests of such a handler
-- preserve.
pub record IsClosed (P : Controller → Type 0) : Type 1 where
  pub writes : (a : Action) (w : Controller) → is_own a ≡ true → P w → P (dispatch a w)
  pub keeps :
      (ids : List String) (mic cam : Option Switch) (screen : Option ScreenStage)
      (restore : Option LocalMediaState) (w : Controller)
      → P w
      → P (record w {
        registry = ids;
        mic_toggle = mic;
        cam_toggle = cam;
        screen_toggle = screen;
        media_restore = restore;
      })
  pub asks : (o : Outgoing) (w : Controller) → connects_client o ≡ false → P w → P (act o w)
