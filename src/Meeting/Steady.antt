-- ===== src/Meeting/Steady.antt =====
-- The store follows a joined room.
use mattermost_plugin_openta.Base.{
  ℕ, String, ◌≡◌, refl, Bool, true, false, Option, none, some, List, [], ◌∷◌,
}
use mattermost_plugin_openta.Store.Action.{Role}
use mattermost_plugin_openta.Signaling.Value.{Value, Fields, obj}
use mattermost_plugin_openta.Signaling.Wire.{Frame, normalize}
use mattermost_plugin_openta.Signaling.RoomState.{Room, RoomError, sent, perform, is_joined}
use mattermost_plugin_openta.Signaling.Messages.{classify}
use mattermost_plugin_openta.Signaling.Room.{
  on_open, Input, message, commands, opened, after, receive, on_message,
}
use mattermost_plugin_openta.Signaling.Room
use mattermost_plugin_openta.Controller.State.{Controller}
use mattermost_plugin_openta.Meeting.{Meeting, happens, run}
use mattermost_plugin_openta.Meeting.Entering.{
  Joins, Follows, Heard-Follows, after-Heard, enters-Follows,
}
use mattermost_plugin_openta.Meeting.Following.{
  Starts, Heard, if-Heard, handle-Heard, Starts-Heard, names,
}

-- Frames, the opening of the socket and commands; a frame about one participant names it.
abbrev pub is_steady : Input → Bool
is_steady (message raw) = elim (normalize raw) [
  | none ↦ true
  | some f ↦ names (classify f.namespace f.action) (obj f.rest)
]
is_steady (commands c) = true
is_steady opened = true
is_steady _ = false

abbrev pub AllSteady : List Input → Type 0
AllSteady [] = Unit
AllSteady (i ∷ is) = (is_steady i ≡ true) × AllSteady is

module _ (role_of : Option String → Role) (message_of : RoomError → String) where
  received-Heard :
      (k : ℕ) (o : Option Frame) (w : Controller) (r : Room)
      → elim o [ none ↦ true | some f ↦ names (classify f.namespace f.action) (obj f.rest) ] ≡ true
      → Starts w r
      → Heard role_of message_of k w (receive o r)
  received-Heard k none w r n s = Starts-Heard role_of message_of k w r s
  received-Heard k (some f) w r n s =
      after-Heard role_of message_of k w _
        (handle-Heard role_of message_of k (classify f.namespace f.action) (obj f.rest) w r n s)

  sent-Heard :
      (k : ℕ) (namespace a : String) (fields : Fields) (w : Controller) (r : Room)
      → Heard role_of message_of k w r
      → Heard role_of message_of k w (perform (sent namespace a fields) r)
  sent-Heard k namespace a fields w r h = record { joined = h.joined; lists = h.lists }

  starts : (m : Meeting) → Follows m → Starts m.controller (record m.room { log = [] })
  starts m f = record { joined = f.joined; fresh = refl; lists = f.lists }

  happens-Follows :
      (k : ℕ) (i : Input) (m : Meeting)
      → is_steady i ≡ true
      → Follows m
      → Follows (happens role_of message_of k i m)
  unfolding Room.step on_message on_open Room.command
  happens-Follows k (message raw) m n f =
      let start = starts m f in
      let r = record m.room { log = [] } in
      let quiet = Starts-Heard role_of message_of k m.controller r start in
      Heard-Follows role_of message_of k (message raw) m (
        if-Heard role_of message_of r.has_socket _ r
          (if-Heard role_of message_of r.bound _ r
            (received-Heard k (normalize raw) m.controller r n start) quiet)
          quiet)
  happens-Follows k (commands c) m n f =
      let r = record m.room { log = [] } in
      let quiet = Starts-Heard role_of message_of k m.controller r (starts m f) in
      Heard-Follows role_of message_of k (commands c) m (
        if-Heard role_of message_of (is_joined r.state) _ r
          (if-Heard role_of message_of r.has_socket _ r (sent-Heard k _ _ _ m.controller r quiet)
            quiet)
          quiet)
  happens-Follows k opened m n f =
      let r = record m.room { log = [] } in
      let quiet = Starts-Heard role_of message_of k m.controller r (starts m f) in
      Heard-Follows role_of message_of k opened m (
        if-Heard role_of message_of r.has_socket _ r (sent-Heard k _ _ _ m.controller r quiet)
          quiet)
  happens-Follows k _ m n f = cc

  steady-Follows :
      (k : ℕ) (is : List Input) (m : Meeting)
      → AllSteady is
      → Follows m
      → Follows (run role_of message_of k is m)
  unfolding run
  steady-Follows k [] m s f = f
  steady-Follows k (i ∷ is) m s f = steady-Follows k is _ s.1 (happens-Follows k i m s.0 f)

  -- From the frame that accepts the join on, after any frames and commands, the room is joined, the
  -- store lists its participants in the same order, and counts them, whatever the texts of roles and
  -- errors stand for; frames about one participant must name it, and the ids of the join be distinct.
  pub run-Follows :
      (k : ℕ) (raw : Value) (is : List Input) (m : Meeting)
      → Joins raw m
      → AllSteady is
      → Follows (run role_of message_of k (message raw ∷ is) m)
  unfolding run
  run-Follows k raw is m j s = steady-Follows k is _ s (enters-Follows role_of message_of k raw m j)
