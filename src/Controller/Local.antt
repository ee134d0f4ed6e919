-- ===== src/Controller/Local.antt =====
-- What the local user does in a call (controller.ts): the toggles of microphone, camera and shared
-- screen, a change of device, and the commands of a moderator. Whether a device is on is asked of the
-- LiveKit room and comes as an argument, as does the room's own participant id.
pub mod Tiles
pub mod Late
pub mod Muting
use Prim.Native.String.{◌++◌}
use mattermost_plugin_openta.Base.{
  ℕ, String, Bool, true, false, Option, none, some, List, [], ◌∷◌, truthy, option_eq, is_some,
  remove, if◌then◌else◌, not,
}
use mattermost_plugin_openta.Store.Action.{
  video, screen, set_mic_enabled, set_cam_enabled, set_screen_share_enabled, track_subscribed,
  track_unsubscribed,
}
use mattermost_plugin_openta.Store.Root.{select_local_participant_id}
use mattermost_plugin_openta.Signaling.RoomState.{Participant}
use mattermost_plugin_openta.Signaling.Room.{
  Command, raise_hand, lower_hand, force_mute, kick, ban, grant_moderator, revoke_moderator,
  reset_hand, grant_screen_share, revoke_screen_share,
}
use mattermost_plugin_openta.Controller.State.{
  Controller, Switch, turning_on, turning_off, ScreenStage, withdrawing, capturing, listing,
  picking, capturing_source, enable_mic, disable_mic, enable_cam, disable_cam, disable_screen,
  capture_display, list_sources, show_picker, capture_source, alert, tell_client, dispatch, act, t,
}
use mattermost_plugin_openta.Controller.Events.{key}

-- The room, where there is a store to write to.
abbrev pub live_room : Controller → Option ℕ
live_room w = if w.has_store then w.livekit else none

abbrev pub switch_mic : Option Switch → Option ℕ → (enabled : Bool) → Controller → Controller
switch_mic (some s) lk enabled w = w
switch_mic none none enabled w = w
switch_mic none (some lk) true w =
    act (disable_mic lk) (record w { mic_toggle = some (turning_off lk) })
switch_mic none (some lk) false w =
    act (enable_mic lk) (record w { mic_toggle = some (turning_on lk) })

-- `toggleMic`: a second call shares the promise of the first.
unfoldable pub toggle_mic : (enabled : Bool) → Controller → Controller
toggle_mic enabled w = switch_mic w.mic_toggle (live_room w) enabled w

abbrev pub mic_switched : Option Switch → (worked : Bool) → Controller → Controller
mic_switched (some (turning_on lk)) true w = dispatch (set_mic_enabled true) w
mic_switched (some (turning_off lk)) true w = dispatch (set_mic_enabled false) w
mic_switched _ worked w = w

-- The call that the toggle awaits has settled.
unfoldable pub mic_toggle_settles : (worked : Bool) → Controller → Controller
mic_toggle_settles worked w = record (mic_switched w.mic_toggle worked w) { mic_toggle = none }

-- `localTrackId`
unfoldable pub local_track_id : (local_id kind : String) → String
local_track_id local_id kind = "local:" ++ local_id ++ ":" ++ kind

-- `registerLocalCamTrack`, where the room has a camera track.
unfoldable pub register_local_cam_track : (local_id : String) → Controller → Controller
register_local_cam_track local_id w =
    let id = local_track_id local_id "video" in
    dispatch (track_subscribed local_id video id)
      (record w { registry = id ∷ remove id w.registry })

abbrev pub show_cam : (has_track : Bool) → (local_id : String) → Controller → Controller
show_cam has_track local_id w = if has_track then register_local_cam_track local_id w else w

unfoldable pub hide_cam : (local_id : String) → Controller → Controller
hide_cam local_id w =
    dispatch (track_unsubscribed local_id video)
      (record w { registry = remove (local_track_id local_id "video") w.registry })

abbrev pub switch_cam :
    Option Switch → Option ℕ → (enabled : Bool) → (local_id : String) → Controller → Controller
switch_cam (some s) lk enabled local_id w = w
switch_cam none none enabled local_id w = w
switch_cam none (some lk) true local_id w =
    act (disable_cam lk) (record (hide_cam local_id w) { cam_toggle = some (turning_off lk) })
switch_cam none (some lk) false local_id w =
    act (enable_cam lk) (record w { cam_toggle = some (turning_on lk) })

-- `toggleCam`
unfoldable pub toggle_cam : (enabled : Bool) → (local_id : String) → Controller → Controller
toggle_cam enabled local_id w = switch_cam w.cam_toggle (live_room w) enabled local_id w

abbrev pub cam_switched :
    Option Switch → (worked has_track : Bool) → (local_id : String) → Controller → Controller
cam_switched (some (turning_on lk)) true has_track local_id w =
    dispatch (set_cam_enabled true) (show_cam has_track local_id w)
cam_switched (some (turning_off lk)) true has_track local_id w = dispatch (set_cam_enabled false) w
cam_switched _ worked has_track local_id w = w

unfoldable pub cam_toggle_settles :
    (worked has_track : Bool) → (local_id : String) → Controller → Controller
cam_toggle_settles worked has_track local_id w =
    record (cam_switched w.cam_toggle worked has_track local_id w) { cam_toggle = none }

abbrev pub withdraw_mic : Option ℕ → (enabled : Bool) → Controller → Controller
withdraw_mic none enabled w = w
withdraw_mic (some lk) enabled w = if enabled then act (disable_mic lk) w else w

-- `applyMicDeviceChange` up to its first `await`.
unfoldable pub apply_mic_device_change : (enabled : Bool) → Controller → Controller
apply_mic_device_change enabled w = withdraw_mic (live_room w) enabled w

abbrev pub republish_mic : Option ℕ → Controller → Controller
republish_mic none w = dispatch (set_mic_enabled false) w
republish_mic (some lk) w = act (enable_mic lk) w

-- The microphone was withdrawn, or not: the room is read again, and without one this fails too.
unfoldable pub mic_withdrawn : (worked : Bool) → Controller → Controller
mic_withdrawn worked w =
    if worked then republish_mic w.livekit w else dispatch (set_mic_enabled false) w

-- The microphone was published again, or not.
unfoldable pub mic_republished : (worked : Bool) → Controller → Controller
mic_republished worked w = if worked then w else dispatch (set_mic_enabled false) w

abbrev pub withdraw_cam :
    Option ℕ → (enabled : Bool) → (local_id : String) → Controller → Controller
withdraw_cam none enabled local_id w = w
withdraw_cam (some lk) enabled local_id w =
    if enabled then act (disable_cam lk) (hide_cam local_id w) else w

-- `applyCamDeviceChange` up to its first `await`.
unfoldable pub apply_cam_device_change :
    (enabled : Bool) → (local_id : String) → Controller → Controller
apply_cam_device_change enabled local_id w = withdraw_cam (live_room w) enabled local_id w

-- The same for the camera, whose room was kept.
unfoldable pub cam_withdrawn : ℕ → (worked : Bool) → Controller → Controller
cam_withdrawn lk worked w =
    if worked then act (enable_cam lk) w else dispatch (set_cam_enabled false) w

unfoldable pub cam_republished :
    (worked has_track : Bool) → (local_id : String) → Controller → Controller
cam_republished worked has_track local_id w =
    if worked then show_cam has_track local_id w else dispatch (set_cam_enabled false) w

abbrev pub switch_screen :
    Option ScreenStage → Option ℕ → (sharing : Bool) → (local_id : String) → Controller → Controller
switch_screen (some s) lk sharing local_id w = w
switch_screen none none sharing local_id w = w
switch_screen none (some lk) true local_id w = act (disable_screen lk) (
    dispatch (track_unsubscribed local_id screen) (record w {
      screen_toggle = some withdrawing;
      registry = remove (local_track_id local_id "screen") w.registry;
    }))
switch_screen none (some lk) false local_id w =
    act (capture_display lk) (record w { screen_toggle = some (capturing lk) })

-- `toggleScreenShare` and `doToggleScreenShare` up to the first `await`.
unfoldable pub toggle_screen_share :
    (sharing : Bool) → (local_id : String) → Controller → Controller
toggle_screen_share sharing local_id w =
    switch_screen w.screen_toggle (live_room w) sharing local_id w

abbrev pub show_screen : (has_track : Bool) → (local_id : String) → Controller → Controller
show_screen has_track local_id w =
    let id = local_track_id local_id "screen" in
    if has_track
    then dispatch (track_subscribed local_id screen id)
        (record w { registry = id ∷ remove id w.registry })
    else w

-- The screen is shared: its track is shown, where the room has it, and the toggle ends.
unfoldable pub shares : (has_track : Bool) → (local_id : String) → Controller → Controller
shares has_track local_id w =
    dispatch (set_screen_share_enabled true)
      (record (show_screen has_track local_id w) { screen_toggle = none })

abbrev ends_share : Controller → Controller
ends_share w = record w { screen_toggle = none }

-- What the `await`s of `doToggleScreenShare` give.
pub data ScreenResult : Type 0 where
  -- `disableScreenShare`
  withdrawn : (worked : Bool) → ScreenResult
  -- capturing and publishing a screen, with or without the picker
  captured : (has_track : Bool) → ScreenResult
  not_captured : ScreenResult
  -- `getDesktopSources`: whether there is any
  listed : (found : Bool) → ScreenResult
  not_listed : ScreenResult
  -- `pickScreenSource`
  picked : Option String → ScreenResult

abbrev no_screens : Controller → String
no_screens w =
    t w "Keine Bildschirme/Fenster verfügbar zum Teilen."
      "No screens or windows available to share."

abbrev pub after_pick : ℕ → Option String → Controller → Controller
after_pick lk none w = ends_share w
after_pick lk (some id) w =
    if truthy id
    then act (capture_source lk id) (record w { screen_toggle = some (capturing_source lk) })
    else ends_share w

abbrev pub screen_next :
    Option ScreenStage
    → ScreenResult
    → (electron : Bool) → (local_id : String) → Controller
    → Controller
screen_next (some withdrawing) (withdrawn true) electron local_id w =
    dispatch (set_screen_share_enabled false) (ends_share w)
screen_next (some withdrawing) (withdrawn false) electron local_id w = ends_share w
screen_next (some (capturing lk)) (captured has_track) electron local_id w =
    shares has_track local_id w
screen_next (some (capturing lk)) not_captured electron local_id w =
    if electron
    then act list_sources (record w { screen_toggle = some (listing lk) })
    else ends_share w
screen_next (some (listing lk)) (listed true) electron local_id w =
    act show_picker (record w { screen_toggle = some (picking lk) })
screen_next (some (listing lk)) (listed false) electron local_id w =
    act (alert (no_screens w)) (ends_share w)
screen_next (some (listing lk)) not_listed electron local_id w = ends_share w
screen_next (some (picking lk)) (picked id) electron local_id w = after_pick lk id w
screen_next (some (capturing_source lk)) (captured has_track) electron local_id w =
    shares has_track local_id w
screen_next (some (capturing_source lk)) not_captured electron local_id w = ends_share w
screen_next _ result electron local_id w = w

-- What is awaited in `doToggleScreenShare` has settled.
unfoldable pub screen_settles :
    ScreenResult → (electron : Bool) → (local_id : String) → Controller → Controller
screen_settles result electron local_id w = screen_next w.screen_toggle result electron local_id w

abbrev pub tell : Option ℕ → Command → Controller → Controller
tell none c w = w
tell (some k) c w = act (tell_client k c) w

-- `withClient`
unfoldable pub with_client : Command → Controller → Controller
with_client c w = tell w.client c w

-- The functions from `raiseLocalHand` to `revokeScreenShare`, but `muteAll`.
pub data LocalCommand : Type 0 where
  raise_local_hand lower_local_hand : LocalCommand
  mute kick_out ban_out make_moderator unmake_moderator : (participant_id : String) → LocalCommand
  lower_hand_of allow_screen forbid_screen : (participant_id : String) → LocalCommand

abbrev pub command_of : LocalCommand → Command
command_of raise_local_hand = raise_hand
command_of lower_local_hand = lower_hand
command_of (mute id) = force_mute (id ∷ [])
command_of (kick_out id) = kick id
command_of (ban_out id) = ban id
command_of (make_moderator id) = grant_moderator id
command_of (unmake_moderator id) = revoke_moderator id
command_of (lower_hand_of id) = reset_hand id
command_of (allow_screen id) = grant_screen_share (id ∷ [])
command_of (forbid_screen id) = revoke_screen_share (id ∷ [])

-- The ids that are not the local one.
abbrev pub others : Option String → List Participant → List String
others self [] = []
others self (p ∷ ps) = if option_eq p.id self then others self ps else key p.id ∷ others self ps

-- `muteAll`, over the client's participants.
unfoldable pub mute_all : List Participant → Controller → Controller
mute_all ps w = with_client (force_mute (others (select_local_participant_id w.root) ps)) w
