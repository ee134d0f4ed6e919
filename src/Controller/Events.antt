-- ===== src/Controller/Events.antt =====
-- The handlers that `establishConference` and `bringUpLiveKit` of controller.ts register on their
-- client and on their LiveKit room.
use mattermost_plugin_openta.Base.{
  ℕ, suc, String, Bool, true, false, not, ◌&&◌, ◌||◌, Option, none, some, List, [], ◌∷◌, ◌==◌,
  option_eq, remove, is_some, truthy, nat_eq, if◌then◌else◌,
}
use mattermost_plugin_openta.Store.Action.{
  ParticipantInfo, Role, moderator, user, guest, TrackKind, video, set_cam_enabled, screen,
  connected, participants_bulk_set, participants_changed, participant_added, participant_removed,
  participant_role_changed, set_is_host, hand_raised, hand_lowered, set_raise_hands_enabled,
  set_mic_enabled, set_screen_share_enabled, set_livekit_connected, track_subscribed,
  track_unsubscribed, active_speakers_changed, speaking_changed, participant_media_changed,
}
use mattermost_plugin_openta.Store.Root.{select_local_participant_id}
use mattermost_plugin_openta.Signaling.RoomState.{Participant, Credentials}
use mattermost_plugin_openta.Controller.State.{
  Controller, LocalMediaState, report_error, report_closed, connect_livekit, enable_mic,
  disable_mic, enable_cam, send_heartbeat, set_status, enable_raise_hands, dispatch, act,
  is_current, t, notice_error, set_attempt, tear_down,
}
use mattermost_plugin_openta.Controller.Join.{rejoin_after_drop}

-- A text used as a key: `undefined` is one by its name.
abbrev pub key : Option String → String
key none = "undefined"
key (some s) = s

-- `ALLOWED_ROLES.has(role) ? role : undefined`
abbrev pub allowed_role : Option String → Option Role
allowed_role none = none
allowed_role (some r) =
    if r == "moderator"
    then some moderator
    else if r == "user"
    then some user
    else if r == "guest"
    then some guest
    else none

unfoldable pub to_participant_info : Participant → ParticipantInfo
to_participant_info p = record {
  id = key p.id;
  display_name = key p.display_name;
  role = allowed_role p.role;
  is_host = none;
  is_speaking = none;
  hand_raised = none;
  muted = none;
  camera_off = none;
}

unfoldable pub infos : List Participant → List ParticipantInfo
unfolding to_participant_info
infos [] = []
infos (p ∷ ps) = to_participant_info p ∷ infos ps

-- `bringUpLiveKit` of a client's closures, up to its `connect`.
unfoldable pub bring_up_livekit : ℕ → Credentials → Controller → Controller
bring_up_livekit k c w =
    let lk = w.fresh in
    act (connect_livekit lk c.url c.token) (record w {
      livekit = some lk;
      livekit_client = λ j. if nat_eq j lk then k else w.livekit_client j;
      fresh = suc lk;
    })

unfoldable pub start_heartbeat : String → Controller → Controller
start_heartbeat channel_id w =
    act (send_heartbeat channel_id) (record w { heartbeat = some channel_id })

abbrev pub bring_up_inlined : ℕ → Option Credentials → Controller → Controller
bring_up_inlined k none w = w
bring_up_inlined k (some c) w = if truthy c.url && truthy c.token then bring_up_livekit k c w else w

abbrev pub first_id : List Participant → Option String
first_id [] = none
first_id (p ∷ ps) = p.id

abbrev pub first_is_moderator : List Participant → Bool
first_is_moderator [] = false
first_is_moderator (p ∷ ps) = option_eq p.role (some "moderator")

abbrev pub count {ℓ} : {A : Type ℓ} → List A → ℕ
count [] = 0
count (x ∷ xs) = suc (count xs)

-- `connected`: the store first, then media, heartbeat, status and the raise-hands feature.
unfoldable pub on_connected :
    ℕ → List Participant → Option Credentials → Bool → Controller → Controller
on_connected k participants livekit is_host w =
    let is_moderator = is_host || first_is_moderator participants in
    let stored = dispatch (participants_bulk_set (infos participants)) (
      dispatch
        (connected (record {
          participant_count = count participants;
          is_host = some is_moderator;
          is_room_owner = some is_host;
          local_participant_id = first_id participants;
        }))
        w) in
    let running =
      act set_status
        (start_heartbeat (w.attempts k).place.channel_id (bring_up_inlined k livekit stored)) in
    if is_moderator then act (enable_raise_hands k) running else running

-- Media that is up is left alone.
unfoldable pub on_livekit_credentials : ℕ → Credentials → Controller → Controller
on_livekit_credentials k c w = if is_some w.livekit then w else bring_up_livekit k c w

-- The count is that of the client's participants after the change.
unfoldable pub on_participant_joined : Participant → (present : ℕ) → Controller → Controller
on_participant_joined p present w =
    dispatch (participant_added (to_participant_info p)) (dispatch (participants_changed present) w)

unfoldable pub on_participant_left : Option String → (present : ℕ) → Controller → Controller
on_participant_left id present w =
    dispatch (participant_removed (key id)) (dispatch (participants_changed present) w)

unfoldable pub on_hand_raised : (participant_id : String) → Controller → Controller
on_hand_raised participant_id w = dispatch (hand_raised participant_id) w

unfoldable pub on_hand_lowered : (participant_id : String) → Controller → Controller
on_hand_lowered participant_id w = dispatch (hand_lowered participant_id) w

unfoldable pub on_raise_hands_toggled : Bool → Controller → Controller
on_raise_hands_toggled enabled w = dispatch (set_raise_hands_enabled enabled) w

abbrev pub mute_now : Option ℕ → Controller → Controller
mute_now none w = w
mute_now (some lk) w = dispatch (set_mic_enabled false) (act (disable_mic lk) w)

unfoldable pub on_force_muted : Controller → Controller
on_force_muted w = mute_now w.livekit w

abbrev is_moderator : Role → Bool
is_moderator moderator = true
is_moderator _ = false

unfoldable pub on_role_updated : Option String → Role → Controller → Controller
on_role_updated id role w =
    let q = dispatch (participant_role_changed (key id) role) w in
    if option_eq id (select_local_participant_id q.root)
    then dispatch (set_is_host (is_moderator role)) q
    else q

-- `closed`: a stale one does nothing, one during the join only classifies it.
unfoldable pub on_closed : ℕ → (recoverable : Bool) → Controller → Controller
on_closed k recoverable w =
    let a = w.attempts k in
    if not (is_current w.client k)
    then w
    else if not a.join_settled
    then set_attempt k (record a { terminal_close = not recoverable }) w
    else if recoverable
    then rejoin_after_drop k w
    else tear_down (report_closed ∷ []) w

unfoldable pub on_error : ℕ → String → Controller → Controller
on_error k message w =
    if not (is_current w.client k) || (w.attempts k).join_settled
    then w
    else tear_down (report_error k message ∷ []) w

-- The LiveKit room's `connected`: what was on before a drop is published again, the microphone only
-- if joins are not muted.
abbrev pub wants_mic : Option LocalMediaState → Bool → Bool
wants_mic none mute_on_join = not mute_on_join
wants_mic (some m) mute_on_join = m.mic && not mute_on_join

abbrev pub wants_cam : Option LocalMediaState → Bool
wants_cam none = false
wants_cam (some m) = m.cam

unfoldable pub on_livekit_connected : ℕ → (mute_on_join : Bool) → Controller → Controller
on_livekit_connected lk mute_on_join w =
    let q = record w { media_restore = none } in
    let heard =
      if wants_mic w.media_restore mute_on_join
      then act (enable_mic lk) q
      else dispatch (set_livekit_connected true) q in
    if wants_cam w.media_restore then act (enable_cam lk) heard else heard

-- The microphone's publication has settled.
unfoldable pub on_mic_published : (worked : Bool) → Controller → Controller
on_mic_published worked w =
    dispatch (set_livekit_connected true) (if worked then dispatch (set_mic_enabled true) w else w)

-- The camera's publication has settled; `registerLocalCamTrack` gives the track its id `local:…`.
unfoldable pub on_cam_published :
    (worked has_track : Bool) → (local_id track_id : String) → Controller → Controller
on_cam_published worked has_track local_id track_id w =
    let known = record w { registry = track_id ∷ remove track_id w.registry } in
    let shown =
      if has_track then dispatch (track_subscribed local_id video track_id) known else w in
    if worked then dispatch (set_cam_enabled true) shown else w

unfoldable pub on_livekit_disconnected : ℕ → Controller → Controller
on_livekit_disconnected lk w =
    if is_current w.livekit lk then rejoin_after_drop (w.livekit_client lk) w else w

unfoldable pub on_livekit_failed : ℕ → Controller → Controller
on_livekit_failed lk w =
    let q = record (dispatch (set_livekit_connected false) w) { livekit = none } in
    if not (is_current w.livekit lk)
    then w
    else if (w.attempts (w.livekit_client lk)).notify_on_failure
    then notice_error
        (t w
          "Keine Medienverbindung zum Meeting. Audio und Video funktionieren nicht — bitte verlassen und erneut beitreten."
          "No media connection to the meeting. Audio and video will not work — please leave and rejoin.")
        q
    else q

-- `track_subscribed`, for the participant id of the track's identity; `none` is a track without id.
abbrev subscribe : String → TrackKind → Option String → Controller → Controller
subscribe participant_id kind none w = w
subscribe participant_id kind (some id) w =
    if truthy id
    then dispatch (track_subscribed participant_id kind id)
        (record w { registry = id ∷ remove id w.registry })
    else w

unfoldable pub on_track_subscribed : String → TrackKind → Option String → Controller → Controller
on_track_subscribed participant_id kind track_id w = subscribe participant_id kind track_id w

abbrev forget : Option String → Controller → Controller
forget none w = w
forget (some id) w = if truthy id then record w { registry = remove id w.registry } else w

unfoldable pub on_track_unsubscribed : String → TrackKind → Option String → Controller → Controller
on_track_unsubscribed participant_id kind track_id w =
    dispatch (track_unsubscribed participant_id kind) (forget track_id w)

unfoldable pub on_active_speakers : List String → Controller → Controller
on_active_speakers speakers w =
    dispatch (speaking_changed speakers) (dispatch (active_speakers_changed speakers) w)

-- `track_muted` of a microphone or a camera; `local_id` is the LiveKit room's own participant id.
unfoldable pub on_mic_muted : (id local_id : String) → Bool → Controller → Controller
on_mic_muted id local_id muted w =
    let q = dispatch (participant_media_changed id (some muted) none) w in
    if muted && id == local_id then dispatch (set_mic_enabled false) q else q

unfoldable pub on_camera_muted : String → Bool → Controller → Controller
on_camera_muted id muted w = dispatch (participant_media_changed id none (some muted)) w

-- `local:${id}:screen` is given by the caller.
unfoldable pub on_screen_share_ended : (local_id track_id : String) → Controller → Controller
on_screen_share_ended local_id track_id w = dispatch (set_screen_share_enabled false) (
    dispatch (track_unsubscribed local_id screen)
      (record w { registry = remove track_id w.registry }))
