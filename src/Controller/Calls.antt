-- ===== src/Controller/Calls.antt =====
-- Leaving and ending a meeting, the queue of continuations, and the controller as one step function
-- over what can happen to it (controller.ts).
use mattermost_plugin_openta.Base.{
  ℕ, String, truthy, Bool, true, false, Option, none, some, List, [], ◌∷◌, if◌then◌else◌,
}
use mattermost_plugin_openta.Store.Action.{Role, TrackKind, Action, set_reconnect_attempt}
use mattermost_plugin_openta.Store.Root.{select_channel_id}
use mattermost_plugin_openta.Signaling.RoomState.{Participant, Credentials, JoinFailure}
use mattermost_plugin_openta.Controller.State.{
  Controller, Place, PendingRejoin, Continuation, proceed, establish, report_failure, report_error,
  report_closed, end_meeting, end_on_server, send_debrief, dispatch, act, notice_error, t,
  tear_down, teardown_ends, cancel_pending_rejoin,
}
use mattermost_plugin_openta.Controller.Join.{
  closed_text, run_proceed, establish_conference, start_conference_connection, timer_fires,
  dispatch_connect_error, join_succeeds, join_fails, after_failure,
}
use mattermost_plugin_openta.Controller.Events.{
  on_force_muted, on_role_updated, on_mic_published, on_cam_published, on_track_subscribed,
  on_track_unsubscribed, on_active_speakers, on_mic_muted, on_camera_muted, on_screen_share_ended,
  on_connected, on_livekit_credentials, on_participant_joined, on_participant_left, on_closed,
  on_error, on_livekit_connected, on_livekit_disconnected, on_livekit_failed, on_hand_raised,
  on_hand_lowered, on_raise_hands_toggled,
}
use mattermost_plugin_openta.Controller.Local.{
  toggle_mic, mic_toggle_settles, toggle_cam, cam_toggle_settles, apply_mic_device_change,
  mic_withdrawn, mic_republished, apply_cam_device_change, cam_withdrawn, cam_republished,
  toggle_screen_share, ScreenResult, screen_settles, LocalCommand, command_of, with_client,
  mute_all,
}

abbrev pub reset_reconnect : Controller → Controller
reset_reconnect w = if w.has_store then dispatch (set_reconnect_attempt 0) w else w

-- `leaveActiveConference()` with what its caller does after it.
unfoldable pub leave_with : List Continuation → Controller → Controller
leave_with ks w = tear_down ks (reset_reconnect (cancel_pending_rejoin w))

unfoldable pub leave_active_conference : Controller → Controller
unfolding leave_with
leave_active_conference w = leave_with [] w

abbrev pub debrief : Option ℕ → Controller → Controller
debrief none w = w
debrief (some k) w = act (send_debrief k) w

unfoldable pub end_active_meeting : Controller → Controller
end_active_meeting w =
    if w.has_store
    then leave_with (end_meeting (select_channel_id w.root) ∷ []) (debrief w.client w)
    else leave_with [] w

abbrev pub end_on : Option String → Controller → Controller
end_on none w = w
end_on (some channel_id) w = if truthy channel_id then act (end_on_server channel_id) w else w

-- The server has refused to end the meeting.
unfoldable pub on_end_failed : Controller → Controller
on_end_failed w =
    notice_error (t w "Meeting konnte nicht beendet werden" "Failed to end the meeting") w

-- `_reset`
unfoldable pub reset : Controller → Controller
reset w = record (cancel_pending_rejoin w) {
  client = none;
  livekit = none;
  has_store = false;
  heartbeat = none;
}

-- `activeConferenceChannelID()`
abbrev channel_of : Option PendingRejoin → Controller → Option String
channel_of (some r) w = some r.place.channel_id
channel_of none w = if w.has_store then select_channel_id w.root else none

unfoldable pub active_conference_channel_id : Controller → Option String
active_conference_channel_id w = channel_of w.rejoin w

unfoldable pub continue_with : Continuation → Controller → Controller
continue_with (proceed id) w = run_proceed id w
continue_with (establish place) w = establish_conference place none true w
continue_with (report_failure k failure message) w = after_failure k failure message w
continue_with (report_error k message) w = dispatch_connect_error k message w
continue_with report_closed w = notice_error (closed_text w) w
continue_with (end_meeting channel_id) w = end_on channel_id w

abbrev pub run_next : List Continuation → Controller → Controller
run_next [] w = w
run_next (k ∷ ks) w = continue_with k (record w { ready = ks })

-- What can happen: calls of the user, results, events of clients and LiveKit rooms, and the event
-- loop that goes on with what waited.
pub data Happening : Type 0 where
  starts : Place → Happening
  leaves ends : Happening
  join_ok : ℕ → Happening
  join_bad : ℕ → JoinFailure → String → Happening
  client_connected : ℕ → List Participant → Option Credentials → Bool → Happening
  client_credentials : ℕ → Credentials → Happening
  client_joined : Participant → ℕ → Happening
  client_left : Option String → ℕ → Happening
  client_closed : ℕ → Bool → Happening
  client_error : ℕ → String → Happening
  media_connected : ℕ → Bool → Happening
  media_dropped media_failed : ℕ → Happening
  client_force_muted : Happening
  client_role_updated : Option String → Role → Happening
  mic_published : (worked : Bool) → Happening
  cam_published : (worked has_track : Bool) → (local_id track_id : String) → Happening
  end_failed : Happening
  track_added track_gone : (participant_id : String) → TrackKind → Option String → Happening
  speakers : List String → Happening
  mic_muted : (id local_id : String) → Bool → Happening
  camera_muted : String → Bool → Happening
  share_ended : (local_id track_id : String) → Happening
  client_hand : (participant_id : String) → (raised : Bool) → Happening
  client_raise_hands : (enabled : Bool) → Happening
  torn_down runs timer : Happening
  -- the local user's toggles, with whether the device is on and the local participant id; the results
  -- of what they await
  toggles_mic mic_toggled : Bool → Happening
  toggles_cam : (enabled : Bool) → (local_id : String) → Happening
  cam_toggled : (worked has_track : Bool) → (local_id : String) → Happening
  toggles_screen : (sharing : Bool) → (local_id : String) → Happening
  screen_result : ScreenResult → (electron : Bool) → (local_id : String) → Happening
  -- a change of device, and the results of its two parts
  mic_changes mic_off mic_on : Bool → Happening
  cam_changes : (enabled : Bool) → (local_id : String) → Happening
  cam_off : ℕ → (worked : Bool) → Happening
  cam_on : (worked has_track : Bool) → (local_id : String) → Happening
  -- a command of the local user
  commands : LocalCommand → Happening
  mutes_all : List Participant → Happening
  resets : Happening
  -- any other write to the store
  writes : Action → Happening

unfoldable pub step : Happening → Controller → Controller
step (starts place) w = start_conference_connection place w
step leaves w = leave_active_conference w
step ends w = end_active_meeting w
step (join_ok k) w = join_succeeds k w
step (join_bad k failure message) w = join_fails k failure message w
step (client_connected k ps lk host) w = on_connected k ps lk host w
step (client_credentials k c) w = on_livekit_credentials k c w
step (client_joined p n) w = on_participant_joined p n w
step (client_left id n) w = on_participant_left id n w
step (client_closed k rec) w = on_closed k rec w
step (client_error k message) w = on_error k message w
step (media_connected lk mute) w = on_livekit_connected lk mute w
step (media_dropped lk) w = on_livekit_disconnected lk w
step (media_failed lk) w = on_livekit_failed lk w
step client_force_muted w = on_force_muted w
step (client_role_updated id role) w = on_role_updated id role w
step (mic_published worked) w = on_mic_published worked w
step (cam_published worked has_track local_id track_id) w =
    on_cam_published worked has_track local_id track_id w
step end_failed w = on_end_failed w
step (track_added id kind track_id) w = on_track_subscribed id kind track_id w
step (track_gone id kind track_id) w = on_track_unsubscribed id kind track_id w
step (speakers ids) w = on_active_speakers ids w
step (mic_muted id local_id muted) w = on_mic_muted id local_id muted w
step (camera_muted id muted) w = on_camera_muted id muted w
step (share_ended local_id track_id) w = on_screen_share_ended local_id track_id w
step torn_down w = teardown_ends w
step runs w = run_next w.ready w
step timer w = timer_fires w
step (client_hand id raised) w = if raised then on_hand_raised id w else on_hand_lowered id w
step (client_raise_hands enabled) w = on_raise_hands_toggled enabled w
step (toggles_mic enabled) w = toggle_mic enabled w
step (mic_toggled worked) w = mic_toggle_settles worked w
step (toggles_cam enabled local_id) w = toggle_cam enabled local_id w
step (cam_toggled worked has_track local_id) w = cam_toggle_settles worked has_track local_id w
step (toggles_screen sharing local_id) w = toggle_screen_share sharing local_id w
step (screen_result r electron local_id) w = screen_settles r electron local_id w
step (mic_changes enabled) w = apply_mic_device_change enabled w
step (mic_off worked) w = mic_withdrawn worked w
step (mic_on worked) w = mic_republished worked w
step (cam_changes enabled local_id) w = apply_cam_device_change enabled local_id w
step (cam_off lk worked) w = cam_withdrawn lk worked w
step (cam_on worked has_track local_id) w = cam_republished worked has_track local_id w
step (commands c) w = with_client (command_of c) w
step (mutes_all ps) w = mute_all ps w
step resets w = reset w
step (writes a) w = dispatch a w

unfoldable pub run : List Happening → Controller → Controller
run [] w = w
run (h ∷ hs) w = run hs (step h w)
