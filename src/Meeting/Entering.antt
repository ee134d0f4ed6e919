-- ===== src/Meeting/Entering.antt =====
-- A room that is joined, and the frames after it.
use mattermost_plugin_openta.Base.{
  ℕ, String, ◌≡◌, refl, Bool, true, Option, none, some, List, [], ◌∷◌, map, Distinct, arith, ap,
  ◌∙◌, ◌&&◌, ◌||◌, truthy,
}
use mattermost_plugin_openta.Store.Action.{Role, ConnectedPayload, participants_bulk_set}
use mattermost_plugin_openta.Store.Action
use mattermost_plugin_openta.Store.Root.{root_reducer}
use mattermost_plugin_openta.Store.Session.{session_reducer}
use mattermost_plugin_openta.Store.Participants.Invariant.{IsValid, reducer-IsValid}
use mattermost_plugin_openta.Store.Participants.Listing.{reducer-order}
use mattermost_plugin_openta.Signaling.Value.{Value, obj, get}
use mattermost_plugin_openta.Signaling.Wire.{Frame, normalize}
use mattermost_plugin_openta.Signaling.RoomState.{
  Room, Participant, Credentials, RoomError, connected, is_connecting, is_joined, emit,
}
use mattermost_plugin_openta.Signaling.Messages.{
  Handled, done, thrown_at, handle, join_success, classify, local_of, others_of, on_join_success,
  store_resumption,
}
use mattermost_plugin_openta.Signaling.Room.{
  Input, message, commands, opened, after, receive, on_message,
}
use mattermost_plugin_openta.Signaling.Room
use mattermost_plugin_openta.Controller.State.{Controller, set_status, enable_raise_hands, dispatch}
use mattermost_plugin_openta.Controller.Events.{
  count, first_id, first_is_moderator, key, infos, to_participant_info, on_connected,
  bring_up_inlined, bring_up_livekit, start_heartbeat,
}
use mattermost_plugin_openta.Meeting.{Meeting, deliver, happens}
use mattermost_plugin_openta.Meeting.Listed.{Lists, ids, AllNamed, act-Lists, session-count}
use mattermost_plugin_openta.Meeting.Handlers.{if-Lists}
use mattermost_plugin_openta.Meeting.Following.{Heard, HeardAll, if-Heard, credentials-Heard}

map-infos : (ps : List Participant) → map (λ p. p.id) (infos ps) ≡ ids ps
unfolding infos to_participant_info
map-infos [] = refl
map-infos (p ∷ ps) = ap (◌∷◌ (key p.id)) (map-infos ps)

bulk-Lists :
    (qs : List Participant) (n : ℕ) (w : Controller)
    → IsValid w.root.participants
    → w.root.session.participant_count ≡ n
    → Distinct (ids qs)
    → AllNamed qs
    → Lists qs n (dispatch (participants_bulk_set (infos qs)) w)
unfolding dispatch root_reducer
bulk-Lists qs n w v c d named =
    let a = participants_bulk_set (infos qs) in
    record {
      named = named;
      listed = reducer-order w.root.participants a v ∙ map-infos qs;
      counted = session-count w.now w.root.session a ∙ c;
      valid = reducer-IsValid w.root.participants a (rw (map-infos qs) d) v;
    }

-- The two writes of `connected`.
stored-Lists :
    (p : ConnectedPayload) (qs : List Participant) (w : Controller)
    → p.participant_count ≡ count qs
    → IsValid w.root.participants
    → Distinct (ids qs)
    → AllNamed qs
    → Lists qs
        (count qs)
        (dispatch (participants_bulk_set (infos qs)) (dispatch (Action.connected p) w))
unfolding dispatch root_reducer session_reducer
stored-Lists p qs w same v d n =
    bulk-Lists qs (count qs) (dispatch (Action.connected p) w)
      (reducer-IsValid w.root.participants (Action.connected p) tt v) same d n

inlined-Lists :
    (k : ℕ) (c : Option Credentials) (ps : List Participant) (n : ℕ) (w : Controller)
    → Lists ps n w
    → Lists ps n (bring_up_inlined k c w)
unfolding bring_up_livekit
inlined-Lists k none ps n w v = v
inlined-Lists k (some c) ps n w v = if-Lists (truthy c.url && truthy c.token) _ w (ground arith) v

beat-Lists :
    (id : String) (ps : List Participant) (n : ℕ) (w : Controller)
    → Lists ps n w
    → Lists ps n (start_heartbeat id w)
unfolding start_heartbeat
beat-Lists id ps n w v = ground arith

-- Media, heartbeat, status and hands are of no matter to them.
connected-Lists :
    (k : ℕ) (qs : List Participant) (c : Option Credentials) (host : Bool) (w : Controller)
    → IsValid w.root.participants
    → Distinct (ids qs)
    → AllNamed qs
    → Lists qs (count qs) (on_connected k qs c host w)
unfolding on_connected
connected-Lists k qs c host w v d n =
    let p : ConnectedPayload = record {
      participant_count = count qs;
      is_host = some (host || first_is_moderator qs);
      is_room_owner = some host;
      local_participant_id = first_id qs;
    } in
    let up = inlined-Lists k c qs (count qs) _ (stored-Lists p qs w refl v d n) in
    let beating = beat-Lists (w.attempts k).place.channel_id qs (count qs) _ up in
    let running = act-Lists qs (count qs) set_status _ beating in
    if-Lists (host || first_is_moderator qs) _ _
      (act-Lists qs (count qs) (enable_raise_hands k) _ running) running

-- A frame that accepts the join of a connecting room, with the other participants; all ids are
-- distinct, and the store is valid.
pub record Joins (raw : Value) (m : Meeting) : Type 0 where
  pub frame : Frame
  pub others : List Participant
  pub parsed : normalize raw ≡ some frame
  pub accepts : classify frame.namespace frame.action ≡ join_success
  pub listed : others_of (get "participants" (obj frame.rest)) ≡ some others
  pub connecting : is_connecting m.room.state ≡ true
  pub listening : (m.room.has_socket ≡ true) × (m.room.bound ≡ true)
  pub named : AllNamed (local_of (obj frame.rest) ∷ others)
  pub distinct : Distinct (ids (local_of (obj frame.rest) ∷ others))
  pub valid : IsValid m.controller.root.participants

-- The room is joined, and the store lists its participants in their order and counts them.
pub record Follows (m : Meeting) : Type 0 where
  pub joined : is_joined m.room.state ≡ true
  pub lists : Lists m.room.participants (count m.room.participants) m.controller

module _ (role_of : Option String → Role) (message_of : RoomError → String) where
  pub Heard-Follows :
      (k : ℕ) (i : Input) (m : Meeting)
      → Heard role_of message_of k m.controller (Room.step i (record m.room { log = [] }))
      → Follows (happens role_of message_of k i m)
  unfolding happens
  Heard-Follows k i m h = record { joined = h.joined; lists = h.lists }

  -- The event of a join, with the promise that it may settle.
  connected-Heard :
      (k : ℕ) (qs : List Participant) (c : Option Credentials) (host : Bool) (w : Controller)
      (r : Room)
      → r.log ≡ []
      → is_joined r.state ≡ true
      → r.participants ≡ qs
      → AllNamed qs
      → Distinct (ids qs)
      → IsValid w.root.participants
      → Heard role_of message_of k w (emit (connected qs c host) r)
  unfolding emit deliver
  connected-Heard k qs c host w r e j same n d v =
      let lists = connected-Lists k qs c host w v d n in
      if-Heard role_of message_of r.waiting _ _ (record { joined = j; lists = rw (e, same) lists })
        (record { joined = j; lists = rw (e, same) lists })

  store_resumption-log : (r : Room) → (store_resumption r).log ≡ r.log
  store_resumption-log r = ground arith

  entered-Heard :
      (k : ℕ) (payload : Value) (others : List Participant) (w : Controller) (r : Room)
      → is_connecting r.state ≡ true
      → r.log ≡ []
      → others_of (get "participants" payload) ≡ some others
      → AllNamed (local_of payload ∷ others)
      → Distinct (ids (local_of payload ∷ others))
      → IsValid w.root.participants
      → HeardAll role_of message_of k w (handle join_success payload r)
  unfolding handle on_join_success
  entered-Heard k payload others w r c e o n d v =
      simp (c, o)
        (credentials-Heard role_of message_of k _ w _ (
          connected-Heard k (local_of payload ∷ others) _ _ w _ (store_resumption-log r ∙ e) refl
            refl n d v))

  pub after-Heard :
      (k : ℕ) (w : Controller) (h : Handled)
      → HeardAll role_of message_of k w h
      → Heard role_of message_of k w (after h)
  after-Heard k w (done r) h = h
  after-Heard k w (thrown_at r) h = absurd h

  -- The first frame of a joined room.
  pub enters-Follows :
      (k : ℕ) (raw : Value) (m : Meeting)
      → Joins raw m
      → Follows (happens role_of message_of k (message raw) m)
  unfolding Room.step on_message
  enters-Follows k raw m j = Heard-Follows k (message raw) m (
      simp (j.listening.0, j.listening.1, j.parsed, j.accepts)
        (after-Heard k m.controller _ (
          entered-Heard k (obj j.frame.rest) j.others m.controller _ j.connecting refl j.listed
            j.named j.distinct j.valid)))
