-- ===== src/Conference/Client.antt =====
-- The conference client (webapp/src/conference/client.ts): a room whose tickets come from the plugin's
-- server.
pub mod Tickets
use mattermost_plugin_openta.Base.{String, Option, none, some, List}
use mattermost_plugin_openta.Signaling.Value.{Value, undefined, null, get, text}
use mattermost_plugin_openta.Signaling.RoomState.{Room, RoomStatus, Participant}
use mattermost_plugin_openta.Signaling.Room.{
  Input, ticket, no_ticket, Command, raise_hand, lower_hand, enable_raise_hands, send_debrief,
  force_mute, kick, ban, grant_moderator, revoke_moderator, reset_all_hands, reset_hand,
  reset_hands, grant_screen_share, revoke_screen_share, connect, leave, mark_unexpected_drop,
  command,
}
use mattermost_plugin_openta.Plugin.Rest.{Answer, Result, ok, failed, join_meeting}

-- A text of the answer. A missing one counts as empty, as `resumption` and `roomserver_url` do where they
-- are used; an answer always has a ticket, and no other value in these places.
abbrev pub or_empty : Option String → String
or_empty none = ""
or_empty (some s) = s

abbrev pub field_text : String → Value → String
field_text k v = or_empty (text (get k v))

-- To read a field of `null` throws.
abbrev pub ticket_of : Result Value → Input
ticket_of (ok undefined) = no_ticket
ticket_of (ok null) = no_ticket
ticket_of (ok v) =
    ticket (field_text "ticket" v) (field_text "resumption" v) (field_text "roomserver_url" v)
ticket_of (failed e) = no_ticket

-- `restAuth.getTicket`: how the ticket request settles, by the answer to `joinMeeting`.
unfoldable pub get_ticket : Answer → Input
get_ticket a = ticket_of (join_meeting a)

-- Who is asked to lower the hand: `resetRaisedHands` takes nothing, an id or a list.
pub data Target : Type 0 where
  everyone : Target
  one : String → Target
  these : List String → Target

abbrev reset_of : Target → Command
reset_of everyone = reset_all_hands
reset_of (one id) = reset_hand id
reset_of (these ids) = reset_hands ids

-- The methods of the client.
pub data ClientCall : Type 0 where
  connects : (room_id channel_id display_name secret : String) → ClientCall
  leaves marks_drop raises lowers enables_raising debriefs : ClientCall
  mutes allows_screen forbids_screen : List String → ClientCall
  kicks bans promotes demotes : String → ClientCall
  resets_hands : Target → ClientCall

unfoldable pub call : ClientCall → Room → Room
call (connects room_id channel_id display_name secret) r =
    connect room_id channel_id display_name secret r
call leaves r = leave r
call marks_drop r = mark_unexpected_drop r
call raises r = command raise_hand r
call lowers r = command lower_hand r
call enables_raising r = command enable_raise_hands r
call debriefs r = command (send_debrief "all") r
call (mutes ids) r = command (force_mute ids) r
call (kicks id) r = command (kick id) r
call (bans id) r = command (ban id) r
call (promotes id) r = command (grant_moderator id) r
call (demotes id) r = command (revoke_moderator id) r
call (resets_hands t) r = command (reset_of t) r
call (allows_screen ids) r = command (grant_screen_share ids) r
call (forbids_screen ids) r = command (revoke_screen_share ids) r

abbrev pub get_state : Room → RoomStatus
get_state r = r.state

abbrev pub get_participants : Room → List Participant
get_participants r = r.participants
