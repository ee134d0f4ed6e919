-- ===== src/Signaling/Room.antt =====
-- `ConferenceRoom` (webapp/src/conference/signaling/conference_room.ts): its methods, the events of
-- its socket and of its ticket request, and a run over a sequence of them.
pub mod Keeps
pub mod Lifecycle
pub mod Closed
pub mod Silence
pub mod Token
use mattermost_plugin_openta.Base.{
  ℕ, String, Bool, true, false, Option, none, some, List, [], ◌∷◌, truthy, if◌then◌else◌,
}
use mattermost_plugin_openta.Signaling.Value.{
  Value, str, arr, obj, Items, nil, cons, Fields, end, field,
}
use mattermost_plugin_openta.Signaling.Wire.{Frame, normalize}
use mattermost_plugin_openta.Signaling.RoomState.{
  Room, RoomError, thrown, JoinFailure, not_idle, ticket_failed, cancelled, Effect, sent,
  ticket_requested, socket_opened, socket_closed, join_resolved, join_rejected, error, closed_event,
  authenticating, connecting, idle, closed, leaving, is_idle, is_authenticating, is_joined,
  is_closed, read_resumption, clear_resumption, is_recoverable_close_code, signaling_error_message,
  perform, emit, emit_closed,
}
use mattermost_plugin_openta.Signaling.Messages.{Handled, done, thrown_at, classify, handle}

unfoldable pub connect : String → String → String → String → Room → Room
connect room_id channel_id display_name secret r =
    if is_idle r.state
    then perform (ticket_requested room_id channel_id secret (read_resumption r.storage room_id))
        (record r {
          room_id = room_id;
          state = authenticating;
          join_cancelled = false;
          display_name = display_name;
          ticket_pending = true;
        })
    else perform (join_rejected not_idle) r

-- `getTicket` fulfils. The server's URL takes the place of an empty one.
unfoldable pub on_ticket : String → String → String → String → Room → Room
on_ticket default_url ticket resumption url r =
    if is_authenticating r.state
    then perform (socket_opened (if truthy url then url else default_url) ticket) (record r {
      ticket_pending = false;
      state = connecting;
      rest_resumption = resumption;
      has_socket = true;
      bound = true;
      waiting = true;
    })
    else perform join_resolved (record r { ticket_pending = false })

-- `getTicket` rejects.
unfoldable pub on_ticket_failed : Room → Room
on_ticket_failed r =
    if is_closed r.state
    then perform (join_rejected cancelled) (record r { ticket_pending = false })
    else perform (join_rejected ticket_failed) (record r { ticket_pending = false; state = idle })

unfoldable pub on_open : Room → Room
on_open r = perform (sent "control" "join" (field "displayName" (str r.display_name) end)) r

abbrev or_abnormal : Option ℕ → ℕ
or_abnormal none = 1006
or_abnormal (some code) = code

unfoldable pub on_close : Option ℕ → Room → Room
on_close code r =
    emit_closed (or_abnormal code) (is_recoverable_close_code (or_abnormal code))
      (record r { state = closed; bound = false })

-- `none` is a socket event, which carries no message.
unfoldable pub on_error : Option RoomError → Room → Room
on_error none r = emit (error (signaling_error_message r.state)) r
on_error (some e) r = emit (error e) r

-- An exception of a handler is caught where the socket parses its message.
abbrev pub after : Handled → Room
after (done r) = r
after (thrown_at r) = on_error (some thrown) r

abbrev pub receive : Option Frame → Room → Room
receive none r = r
receive (some f) r = after (handle (classify f.namespace f.action) (obj f.rest) r)

unfoldable pub on_message : Value → Room → Room
on_message raw r = if r.bound then receive (normalize raw) r else r

abbrev hang_up : Room → Room
hang_up r = if r.has_socket then perform socket_closed r else r

abbrev forget_token : Room → Room
forget_token r =
    if r.keep_resumption
    then record r { keep_resumption = false }
    else if truthy r.room_id
    then record r { storage = clear_resumption r.storage r.room_id }
    else r

unfoldable pub leave : Room → Room
leave r =
    let gone = record (hang_up (record r { join_cancelled = true })) {
      state = closed;
      bound = false;
    } in
    if is_joined r.state
    then emit_closed 1000 false (forget_token gone)
    else emit_closed 1000 false gone

unfoldable pub mark_unexpected_drop : Room → Room
mark_unexpected_drop r = record r { keep_resumption = true }

-- The methods that send a frame from a joined room.
pub data Command : Type 0 where
  raise_hand lower_hand enable_raise_hands reset_all_hands : Command
  force_mute grant_screen_share revoke_screen_share reset_hands : List String → Command
  kick ban grant_moderator revoke_moderator reset_hand : String → Command
  send_debrief : (kick_scope : String) → Command

items_of : List String → Items
items_of [] = nil
items_of (s ∷ ss) = cons (str s) (items_of ss)

abbrev with_participants : List String → Fields
with_participants ids = field "participants" (arr (items_of ids)) end

abbrev with_target : String → Fields
with_target id = field "target" (str id) end

unfoldable pub frame_of : Command → Frame
unfolding items_of
frame_of raise_hand = record { namespace = "control"; action = "raiseHand"; rest = end }
frame_of lower_hand = record { namespace = "control"; action = "lowerHand"; rest = end }
frame_of enable_raise_hands = record {
  namespace = "moderation";
  action = "enableRaiseHands";
  rest = end;
}
frame_of reset_all_hands = record {
  namespace = "moderation";
  action = "resetRaisedHands";
  rest = end;
}
frame_of (force_mute ids) = record {
  namespace = "livekit";
  action = "forceMute";
  rest = with_participants ids;
}
frame_of (grant_screen_share ids) = record {
  namespace = "livekit";
  action = "grantScreenSharePermission";
  rest = with_participants ids;
}
frame_of (revoke_screen_share ids) = record {
  namespace = "livekit";
  action = "revokeScreenSharePermission";
  rest = with_participants ids;
}
frame_of (reset_hands ids) = record {
  namespace = "moderation";
  action = "resetRaisedHands";
  rest = field "target" (arr (items_of ids)) end;
}
frame_of (kick id) = record { namespace = "moderation"; action = "kick"; rest = with_target id }
frame_of (ban id) = record { namespace = "moderation"; action = "ban"; rest = with_target id }
frame_of (grant_moderator id) = record {
  namespace = "control";
  action = "grantModeratorRole";
  rest = with_target id;
}
frame_of (revoke_moderator id) = record {
  namespace = "control";
  action = "revokeModeratorRole";
  rest = with_target id;
}
frame_of (reset_hand id) = record {
  namespace = "moderation";
  action = "resetRaisedHands";
  rest = with_target id;
}
frame_of (send_debrief scope) = record {
  namespace = "moderation";
  action = "debrief";
  rest = field "kickScope" (str scope) end;
}

-- `if (this.state !== 'connected' || !this.socket) {return;}`
unfoldable pub command : Command → Room → Room
command c r =
    let f = frame_of c in
    if is_joined r.state
    then if r.has_socket then perform (sent f.namespace f.action f.rest) r else r
    else r

-- What can happen to a room.
pub data Input : Type 0 where
  connects : (room_id channel_id display_name secret : String) → Input
  ticket : (ticket resumption url : String) → Input
  no_ticket : Input
  opened : Input
  message : Value → Input
  closes : Option ℕ → Input
  errs : Option RoomError → Input
  leaves drops : Input
  commands : Command → Input

-- A promise settles once, and only a socket that was opened has events.
unfoldable pub step : Input → Room → Room
step (connects room_id channel_id name secret) r = connect room_id channel_id name secret r
step (ticket t resumption url) r = if r.ticket_pending then on_ticket "" t resumption url r else r
step no_ticket r = if r.ticket_pending then on_ticket_failed r else r
step opened r = if r.has_socket then on_open r else r
step (message v) r = if r.has_socket then on_message v r else r
step (closes code) r = if r.has_socket then on_close code r else r
step (errs e) r = if r.has_socket then on_error e r else r
step leaves r = leave r
step drops r = mark_unexpected_drop r
step (commands c) r = command c r

unfoldable pub run : List Input → Room → Room
run [] r = r
run (i ∷ is) r = run is (step i r)
