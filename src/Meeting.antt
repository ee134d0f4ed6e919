-- ===== src/Meeting.antt =====
-- A room with the controller that listens to its client: the listeners that `establishConference`
-- registers (webapp/src/conference/controller.ts), and the room's inputs with what they make the
-- controller do at once.
pub mod Listed
pub mod Handlers
pub mod Following
pub mod Entering
pub mod Steady
use mattermost_plugin_openta.Base.{ℕ, suc, String, Bool, Option, some, List, [], ◌∷◌}
use mattermost_plugin_openta.Store.Action.{Role}
use mattermost_plugin_openta.Signaling.RoomState.{
  Room, Participant, Effect, emitted, RoomError, RoomEvent, connected, participant_joined,
  participant_left, livekit_credentials, hand_raised, hand_lowered, raise_hands_toggled,
  force_muted, role_updated, closed_event, error,
}
use mattermost_plugin_openta.Signaling.Room.{Input}
use mattermost_plugin_openta.Signaling.Room
use mattermost_plugin_openta.Controller.State.{Controller}
use mattermost_plugin_openta.Controller.Events.{
  count, key, on_connected, on_livekit_credentials, on_participant_joined, on_participant_left,
  on_hand_raised, on_hand_lowered, on_raise_hands_toggled, on_force_muted, on_role_updated,
  on_closed, on_error,
}

pub record Meeting : Type 0 where
  -- its log holds what the last input made it do
  pub room : Room
  pub controller : Controller

-- The controller takes the text of a role as it comes; how a text stands for a role is a parameter, as
-- is the message of an error.
module _ (role_of : Option String → Role) (message_of : RoomError → String) where
  -- What the listeners of client `k` do, where its room has so many participants.
  unfoldable pub deliver : (k present : ℕ) → RoomEvent → Controller → Controller
  deliver k present (connected qs livekit is_host) w = on_connected k qs livekit is_host w
  deliver k present (participant_joined p) w = on_participant_joined p present w
  deliver k present (participant_left id) w = on_participant_left id present w
  deliver k present (livekit_credentials c) w = on_livekit_credentials k c w
  deliver k present (hand_raised id) w = on_hand_raised (key id) w
  deliver k present (hand_lowered id) w = on_hand_lowered (key id) w
  deliver k present (raise_hands_toggled enabled) w = on_raise_hands_toggled enabled w
  deliver k present (force_muted moderator) w = on_force_muted w
  deliver k present (role_updated id role) w = on_role_updated id (role_of role) w
  deliver k present (closed_event code recoverable) w = on_closed k recoverable w
  deliver k present (error e) w = on_error k (message_of e) w

  -- The events of a log, which is newest first.
  abbrev pub deliver_all : (k present : ℕ) → List Effect → Controller → Controller
  deliver_all k present [] w = w
  deliver_all k present (emitted e ∷ es) w = deliver k present e (deliver_all k present es w)
  deliver_all k present (_ ∷ es) w = deliver_all k present es w

  unfoldable pub happens : ℕ → Input → Meeting → Meeting
  happens k i m =
      let r = Room.step i (record m.room { log = [] }) in
      record { room = r; controller = deliver_all k (count r.participants) r.log m.controller }

  unfoldable pub run : ℕ → List Input → Meeting → Meeting
  run k [] m = m
  run k (i ∷ is) m = run k is (happens k i m)
