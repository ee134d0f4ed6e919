-- ===== src/Signaling/RoomState.antt =====
-- The state of `ConferenceRoom` (webapp/src/conference/signaling/conference_room.ts), the events
-- that it emits, and what it does to the world: the frames it sends, the socket it opens and
-- closes, and the outcome of the promise that `connect` returns.
use mattermost_plugin_openta.Base.{
  ℕ, String, Bool, true, false, ◌||◌, Option, none, some, List, [], ◌∷◌, Dict, lookup, insert,
  erase, nat_eq, if◌then◌else◌,
}
use mattermost_plugin_openta.Signaling.Value.{Value, Fields}

pub record Participant : Type 0 where
  pub id : Option String
  pub display_name : Option String
  pub role : Option String

pub record Credentials : Type 0 where
  pub url : String
  pub token : String

pub data RoomStatus : Type 0 where
  idle authenticating connecting is_connected leaving closed : RoomStatus

abbrev pub is_idle : RoomStatus → Bool
is_idle idle = true
is_idle _ = false

abbrev pub is_authenticating : RoomStatus → Bool
is_authenticating authenticating = true
is_authenticating _ = false

abbrev pub is_connecting : RoomStatus → Bool
is_connecting connecting = true
is_connecting _ = false

abbrev pub is_joined : RoomStatus → Bool
is_joined is_connected = true
is_joined _ = false

abbrev pub is_closed : RoomStatus → Bool
is_closed closed = true
is_closed _ = false

-- The errors of the `error` event, by the text that they carry.
pub data RoomError : Type 0 where
  join_blocked control_error moderation_error : Value → RoomError
  waiting_room : RoomError
  connection_lost unreachable : RoomError
  -- an exception inside a handler, or a frame that does not parse
  thrown : RoomError

pub data RoomEvent : Type 0 where
  connected : List Participant → Option Credentials → (is_host : Bool) → RoomEvent
  participant_joined : Participant → RoomEvent
  participant_left : Option String → RoomEvent
  livekit_credentials : Credentials → RoomEvent
  hand_raised hand_lowered : Option String → RoomEvent
  raise_hands_toggled : Bool → RoomEvent
  force_muted : Value → RoomEvent
  role_updated : (id role : Option String) → RoomEvent
  closed_event : (code : ℕ) (recoverable : Bool) → RoomEvent
  error : RoomError → RoomEvent

pub data JoinFailure : Type 0 where
  not_idle ticket_failed cancelled closed_early : JoinFailure
  failed : RoomError → JoinFailure

pub data Effect : Type 0 where
  emitted : RoomEvent → Effect
  sent : (namespace action : String) → Fields → Effect
  ticket_requested : (room_id channel_id secret : String) → (resumption : Option String) → Effect
  socket_opened : (url ticket : String) → Effect
  socket_closed : Effect
  join_resolved : Effect
  join_rejected : JoinFailure → Effect

-- `window.localStorage`; where it is not usable every access throws.
pub record Storage : Type 0 where
  pub usable : Bool
  pub items : Dict String

pub record Room : Type 0 where
  pub state : RoomStatus
  pub room_id : String
  pub has_socket : Bool
  -- the listener is on the socket and not disposed of
  pub bound : Bool
  pub participants : List Participant
  pub local_id : Option String
  pub closed_emitted : Bool
  pub join_cancelled : Bool
  pub keep_resumption : Bool
  -- what the closures of `connect` hold: its argument and the ticket's resumption token
  pub display_name : String
  pub rest_resumption : String
  -- `getTicket` has not settled; `connect` waits for an event
  pub ticket_pending : Bool
  pub waiting : Bool
  pub storage : Storage
  -- newest first
  pub log : List Effect

unfoldable pub new_room : Storage → Room
new_room storage = record {
  state = idle;
  room_id = "";
  has_socket = false;
  bound = false;
  participants = [];
  local_id = some "";
  closed_emitted = false;
  join_cancelled = false;
  keep_resumption = false;
  display_name = "";
  rest_resumption = "";
  ticket_pending = false;
  waiting = false;
  storage = storage;
  log = [];
}

-- The keys are the room ids; the source puts one prefix before each.
abbrev pub read_resumption : Storage → String → Option String
read_resumption s room_id = if s.usable then lookup room_id s.items else none

abbrev pub write_resumption : Storage → String → String → Storage
write_resumption s room_id token =
    if s.usable then record s { items = insert room_id token s.items } else s

abbrev pub clear_resumption : Storage → String → Storage
clear_resumption s room_id = if s.usable then record s { items = erase room_id s.items } else s

abbrev pub signaling_error_message : RoomStatus → RoomError
signaling_error_message is_connected = connection_lost
signaling_error_message _ = unreachable

abbrev pub is_recoverable_close_code : ℕ → Bool
is_recoverable_close_code code =
    nat_eq code 1001
    || (nat_eq code 1005
        || (nat_eq code 1006
            || (nat_eq code 1007 || (nat_eq code 1012 || (nat_eq code 1013 || nat_eq code 4999)))))

abbrev pub perform : Effect → Room → Room
perform e r = record r { log = e ∷ r.log }

abbrev rejection : Room → JoinFailure → JoinFailure
rejection r failure = if r.join_cancelled then cancelled else failure

abbrev settled : Effect → Room → Room
settled e r = record r { waiting = false; log = e ∷ r.log }

-- The listeners with which `connect` waits; each of the three events takes them all off.
abbrev settle : RoomEvent → Room → Room
settle (connected ps lk host) r = if r.waiting then settled join_resolved r else r
settle (closed_event code recoverable) r =
    if r.waiting then settled (join_rejected (rejection r closed_early)) r else r
settle (error e) r = if r.waiting then settled (join_rejected (rejection r (failed e))) r else r
settle _ r = r

-- `emit`: the listeners of the event's users first, then those of `connect`.
unfoldable pub emit : RoomEvent → Room → Room
emit e r = settle e (perform (emitted e) r)

-- `if (!this.closedEmitted) {...}`
unfoldable pub emit_closed : ℕ → Bool → Room → Room
unfolding emit
emit_closed code recoverable r =
    if r.closed_emitted
    then r
    else emit (closed_event code recoverable) (record r { closed_emitted = true })
