-- ===== src/Plugin/Start.antt =====
-- The button that starts a meeting (webapp/src/components/channel_header_button/action.ts), with the
-- name under which the user joins (webapp/src/util/display_name.ts).
pub mod Outcome
use Prim.Native.String.{◌++◌}
use mattermost_plugin_openta.Base.{
  ℕ, String, Bool, true, false, not, ◌&&◌, Option, none, some, List, [], ◌∷◌, nat_eq, truthy, trim,
  if◌then◌else◌,
}
use mattermost_plugin_openta.Store.Action.{notice_set, info}
use mattermost_plugin_openta.Signaling.Value.{Value, get, text}
use mattermost_plugin_openta.Controller.State.{
  Controller, Place, open_window, dispatch, act, t, notice_error,
}
use mattermost_plugin_openta.Controller.Join.{start_conference_connection}
use mattermost_plugin_openta.Plugin.Rest.{
  Request, Failure, Result, ok, failed, Answer, create_meeting_request, create_meeting,
}

-- A user's profile in the host application.
pub record Profile : Type 0 where
  pub nickname : Option String
  pub first_name : Option String
  pub last_name : Option String
  pub username : Option String

abbrev or_empty : Option String → String
or_empty none = ""
or_empty (some s) = s

abbrev full_name : Profile → String
full_name u = trim (or_empty u.first_name ++ " " ++ or_empty u.last_name)

abbrev name_of : Option Profile → String
name_of none = ""
name_of (some u) =
    let nick = trim (or_empty u.nickname) in
    let full = full_name u in
    if truthy nick then nick else if truthy full then full else or_empty u.username

-- `selectCurrentDisplayName` of the current user's id and profile.
unfoldable pub select_current_display_name : Option String → Option Profile → String
select_current_display_name none u = ""
select_current_display_name (some id) u = if truthy id then name_of u else ""

abbrev notice_info : String → Controller → Controller
notice_info message w = dispatch (notice_set message (some info)) w

abbrev no_channel_text : Controller → String
no_channel_text w =
    t w "Öffne zuerst einen Kanal, um ein OpenTalk-Meeting zu starten."
      "Open a channel first to start an OpenTalk meeting."

abbrev not_connected_text : Controller → String
not_connected_text w =
    t w "Verbinde dein OpenTalk-Konto im neuen Tab, dann erneut starten."
      "Connect your OpenTalk account in the new tab, then start again."

abbrev start_in : String → (cookie secret : String) → Controller → Controller × Option Request
start_in channel_id cookie secret w =
    if w.root.oauth.connected
    then (w, some (create_meeting_request cookie channel_id secret))
    else (notice_info (not_connected_text w) (act (open_window ("oauth" ∷ "start" ∷ [])) w), none)

-- `startMeetingAction` up to its request, which it makes where a channel is open and the account is
-- connected.
unfoldable pub start_meeting :
    (channel_id : Option String)
    → (cookie secret : String) → Controller
    → Controller × Option Request
start_meeting none cookie secret w = (notice_info (no_channel_text w) w, none)
start_meeting (some channel_id) cookie secret w = start_in channel_id cookie secret w

abbrev pub create_failed_text : Controller → String → String
create_failed_text w message =
    t w "Meeting konnte nicht erstellt werden" "Failed to create meeting" ++ ": " ++ message

-- `e.existing?.room_id` of a conflict
abbrev room_in : Option Value → Option String
room_in none = none
room_in (some v) = text (get "room_id" v)

abbrev is_conflict : Option ℕ → Bool
is_conflict none = false
is_conflict (some status) = nat_eq status 409

abbrev join_or_tell :
    Option String → (channel_id display_name : String) → Failure → Controller → Controller
join_or_tell none channel_id display_name e w = notice_error (create_failed_text w e.message) w
join_or_tell (some room_id) channel_id display_name e w =
    if is_conflict e.status && truthy room_id
    then start_conference_connection
        (record { room_id = room_id; channel_id = channel_id; display_name = display_name }) w
    else notice_error (create_failed_text w e.message) w

abbrev created : (channel_id display_name : String) → Result Value → Controller → Controller
created channel_id display_name (ok json) w = w
created channel_id display_name (failed e) w =
    join_or_tell (room_in e.existing) channel_id display_name e w

-- The rest of `startMeetingAction`, after its request has settled.
unfoldable pub meeting_created :
    (channel_id display_name : String) → Answer → Controller → Controller
meeting_created channel_id display_name a w = created channel_id display_name (create_meeting a) w
