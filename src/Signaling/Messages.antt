-- ===== src/Signaling/Messages.antt =====
-- The frame handlers that `ConferenceRoom.connect` registers, one function each.
use mattermost_plugin_openta.Base.{
  String, Bool, true, false, ◌&&◌, ◌||◌, Option, none, some, List, [], ◌∷◌, ◌++◌, option_eq, truthy,
  truthy_option, ◌==◌, if◌then◌else◌,
}
use mattermost_plugin_openta.Signaling.Value.{
  Value, undefined, null, bool, str, arr, obj, Items, nil, cons, end, field, get, ◌or_else◌, text,
  is_true,
}
use mattermost_plugin_openta.Signaling.RoomState.{
  Room, Participant, Credentials, RoomError, join_blocked, control_error, moderation_error,
  waiting_room, connected, participant_joined, participant_left, livekit_credentials, hand_raised,
  hand_lowered, raise_hands_toggled, force_muted, role_updated, error, is_connected, is_joined,
  is_connecting, emit, write_resumption,
}

-- `normalizeParticipant(p)`
unfoldable pub normalize_participant : Value → Participant
normalize_participant p =
    let ctrl = get "control" p or_else get "participant" p in
    let id = get "id" p or_else get "id" ctrl in
    let name =
      get "displayName" p
      or_else get "display_name" p
      or_else get "displayName" ctrl
      or_else get "display_name" ctrl in
    let role = text (get "role" p or_else get "role" ctrl) in
    record {
      id = text id;
      display_name = text (name or_else id);
      role = if truthy_option role then role else none;
    }

-- `.map((p) => this.normalizeParticipant(p))`; `none` where an element has no properties and the
-- first access throws.
abbrev push_front : Participant → Option (List Participant) → Option (List Participant)
push_front p none = none
push_front p (some ps) = some (p ∷ ps)

unfoldable pub normalize_items : Items → Option (List Participant)
unfolding normalize_participant
normalize_items nil = some []
normalize_items (cons undefined xs) = none
normalize_items (cons null xs) = none
normalize_items (cons v xs) = push_front (normalize_participant v) (normalize_items xs)

-- `(payload.participants ?? []).map(...)`; only an array has a `map`.
abbrev pub others_of : Value → Option (List Participant)
others_of (arr xs) = normalize_items xs
others_of undefined = some []
others_of null = some []
others_of _ = none

-- `url` and `token`, if both are texts that are not empty.
abbrev credentials : Option String → Option String → Option Credentials
credentials (some url) (some token) =
    if truthy url && truthy token then some (record { url = url; token = token }) else none
credentials _ _ = none

unfoldable pub credentials_of : Value → Option Credentials
credentials_of v =
    credentials (text (get "publicUrl" v or_else get "public_url" v or_else get "url" v))
      (text (get "token" v))

abbrev pub emit_credentials : Option Credentials → Room → Room
emit_credentials none r = r
emit_credentials (some c) r = emit (livekit_credentials c) r

-- A handler's outcome: an exception leaves what was done before it.
pub data Handled : Type 0 where
  done thrown_at : Room → Handled

abbrev pub local_of : Value → Participant
local_of payload = normalize_participant (
    obj (
      field "id" (get "id" payload) (
        field "display_name" (get "displayName" payload or_else get "display_name" payload)
          (field "role" (get "role" payload) end))))

-- The REST-issued token is stored once the join is accepted.
abbrev pub store_resumption : Room → Room
store_resumption r =
    if truthy r.rest_resumption
    then record r {
      storage = write_resumption r.storage r.room_id r.rest_resumption;
      keep_resumption = false;
    }
    else r

abbrev pub enter : Value → List Participant → Room → Room
enter payload others r =
    let me = local_of payload in
    let lk = credentials_of (get "livekit" payload) in
    emit_credentials lk (
      emit
        (connected (me ∷ others) lk
          (is_true (get "is_room_owner" payload) || is_true (get "isRoomOwner" payload)))
        (record r { participants = me ∷ others; local_id = me.id; state = is_connected }))

abbrev pub joined_with : Value → Option (List Participant) → Room → Handled
joined_with payload none r = thrown_at r
joined_with payload (some others) r = done (enter payload others r)

unfoldable pub on_join_success : Value → Room → Handled
unfolding normalize_items
on_join_success payload r =
    if is_connecting r.state
    then joined_with payload (others_of (get "participants" payload)) (store_resumption r)
    else done r

abbrev pub has_id : Option String → List Participant → Bool
has_id id [] = false
has_id id (p ∷ ps) = option_eq p.id id || has_id id ps

abbrev pub without_id : Option String → List Participant → List Participant
without_id id [] = []
without_id id (p ∷ ps) = if option_eq p.id id then without_id id ps else p ∷ without_id id ps

unfoldable pub on_joined : Value → Room → Room
on_joined payload r =
    let p = normalize_participant payload in
    if is_joined r.state
    then emit (participant_joined p) (record r {
      participants =
          if has_id p.id r.participants then r.participants else r.participants ++ p ∷ [];
    })
    else r

unfoldable pub on_left : Value → Room → Room
on_left payload r =
    let id = text (get "id" payload or_else get "participantId" payload) in
    if is_joined r.state
    then emit (participant_left id) (record r { participants = without_id id r.participants })
    else r

unfoldable pub on_credentials : Value → Room → Room
on_credentials payload r = emit_credentials (credentials_of payload) r

-- `v ?? d` at a text.
abbrev pub text_or : Value → Option String → Option String
text_or undefined d = d
text_or null d = d
text_or v d = text v

-- The id that a hand frame names, the local one where it names none.
abbrev pub hand_of : Value → Room → Option String
hand_of payload r =
    text_or
      (get "participantId" payload
        or_else get "participant_id" payload
        or_else get "participant" payload)
      r.local_id

-- `if (id) {this.emit(...)}`
abbrev pub emit_hand : Bool → Option String → Room → Room
emit_hand true id r = if truthy_option id then emit (hand_raised id) r else r
emit_hand false id r = if truthy_option id then emit (hand_lowered id) r else r

unfoldable pub on_hand : Bool → Value → Room → Room
on_hand up payload r = emit_hand up (hand_of payload r) r

-- `setParticipantRole(id, role)`
abbrev pub set_roles : Option String → Option String → List Participant → List Participant
set_roles id role [] = []
set_roles id role (p ∷ ps) =
    (if option_eq p.id id then record p { role = role } else p) ∷ set_roles id role ps

unfoldable pub change_role : Option String → Option String → Room → Room
change_role id role r =
    emit (role_updated id role) (record r { participants = set_roles id role r.participants })

-- The hand in an update frame: only an explicit boolean counts.
abbrev pub update_hand : Value → Option String → Room → Room
update_hand (bool up) id r = emit_hand up id r
update_hand _ id r = r

abbrev pub update_role : Value → Option String → Room → Room
update_role (str role) id r = if truthy_option id then change_role id (some role) r else r
update_role _ id r = r

unfoldable pub apply_update : (hand role : Value) → Option String → Room → Room
apply_update hand role id r = update_role role id (update_hand hand id r)

unfoldable pub on_update : Value → Room → Room
on_update payload r =
    let ctrl = get "control" payload or_else get "participant" payload or_else payload in
    let id = text (get "id" payload or_else get "id" ctrl) in
    if is_joined r.state
    then apply_update (get "handIsUp" ctrl or_else get "handIsUp" payload)
        (get "role" ctrl or_else get "role" payload) id r
    else r

-- `failIfConnecting`: fatal only before the join completes.
unfoldable pub fail_if_connecting : RoomError → Room → Room
fail_if_connecting e r = if is_joined r.state then r else emit (error e) r

abbrev pub or_unknown : Value → Value
or_unknown v = v or_else str "unknown"

-- The handler that a frame is for, by its namespace and action.
pub data Incoming : Type 0 where
  join_success joined left hand_up hand_down update role_change : Incoming
  moderator_granted moderator_revoked blocked control_failed : Incoming
  credentials_sent muted_by_force : Incoming
  hand_reset moderation_failed in_waiting_room hands_enabled hands_disabled : Incoming
  unhandled : Incoming

classify_core : String → Incoming
classify_core a =
    if a == "joinSuccess"
    then join_success
    else if a == "joined"
    then joined
    else if a == "left"
    then left
    else if a == "handRaised"
    then hand_up
    else if a == "handLowered"
    then hand_down
    else if a == "update"
    then update
    else if a == "roleUpdated"
    then role_change
    else if a == "moderatorRoleGranted"
    then moderator_granted
    else if a == "moderatorRoleRevoked"
    then moderator_revoked
    else if a == "joinBlocked"
    then blocked
    else if a == "error"
    then control_failed
    else unhandled

classify_livekit : String → Incoming
classify_livekit a =
    if a == "credentials"
    then credentials_sent
    else if a == "forceMuted"
    then muted_by_force
    else unhandled

classify_moderation : String → Incoming
classify_moderation a =
    if a == "raisedHandResetByModerator"
    then hand_reset
    else if a == "error"
    then moderation_failed
    else if a == "inWaitingRoom"
    then in_waiting_room
    else if a == "raiseHandsEnabled"
    then hands_enabled
    else if a == "raiseHandsDisabled"
    then hands_disabled
    else unhandled

unfoldable pub classify : String → String → Incoming
unfolding classify_core classify_livekit classify_moderation
classify namespace a =
    if namespace == "control"
    then classify_core a
    else if namespace == "livekit"
    then classify_livekit a
    else if namespace == "moderation"
    then classify_moderation a
    else unhandled

unfoldable pub handle : Incoming → Value → Room → Handled
handle join_success payload r = on_join_success payload r
handle joined payload r = done (on_joined payload r)
handle left payload r = done (on_left payload r)
handle hand_up payload r = done (on_hand true payload r)
handle hand_down payload r = done (on_hand false payload r)
handle update payload r = done (on_update payload r)
handle role_change payload r = done (change_role r.local_id (text (get "newRole" payload)) r)
handle moderator_granted payload r =
    done (change_role (text (get "target" payload)) (some "moderator") r)
handle moderator_revoked payload r =
    done (change_role (text (get "target" payload)) (some "user") r)
handle blocked payload r =
    done (fail_if_connecting (join_blocked (or_unknown (get "reason" payload))) r)
handle control_failed payload r = done (
    fail_if_connecting (control_error (or_unknown (get "text" payload or_else get "error" payload)))
      r)
handle credentials_sent payload r = done (on_credentials payload r)
handle muted_by_force payload r = done (emit (force_muted (get "moderator" payload)) r)
handle hand_reset payload r = done (emit (hand_lowered r.local_id) r)
handle moderation_failed payload r =
    done (fail_if_connecting (moderation_error (or_unknown (get "error" payload))) r)
handle in_waiting_room payload r = done (fail_if_connecting waiting_room r)
handle hands_enabled payload r = done (emit (raise_hands_toggled true) r)
handle hands_disabled payload r = done (emit (raise_hands_toggled false) r)
handle unhandled payload r = done r
