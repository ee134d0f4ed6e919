-- ===== src/Controller/State.antt =====
-- The module state of webapp/src/conference/controller.ts, its writes to the store, and the
-- teardown of a conference. What follows an `await` is a continuation: it waits for the teardown or
-- stands in the queue of those that are ready to run.
use mattermost_plugin_openta.Base.{
  ℕ, String, Bool, false, Option, none, some, List, [], ◌∷◌, ◌++◌, nat_eq, is_some, if◌then◌else◌,
}
use mattermost_plugin_openta.Store.Action.{
  Action, tracks_reset, participants_reset, set_mic_enabled, set_cam_enabled,
  set_screen_share_enabled, set_livekit_connected, disconnected, notice_set, error,
}
use mattermost_plugin_openta.Store.Root.{
  RootState, root_reducer, select_mic_enabled, select_cam_enabled,
}
use mattermost_plugin_openta.Signaling.RoomState.{JoinFailure}
use mattermost_plugin_openta.Signaling.Room.{Command}

pub record LocalMediaState : Type 0 where
  pub mic : Bool
  pub cam : Bool

-- Where a conference is, and as whom it is joined.
pub record Place : Type 0 where
  pub room_id : String
  pub channel_id : String
  pub display_name : String

pub record PendingRejoin : Type 0 where
  -- which object it is
  pub id : ℕ
  pub place : Place
  pub attempt : ℕ
  pub timer : Bool

-- One run of `establishConference`, by the number of its client: its arguments and the variables of
-- its closures. `owner` is the rejoin that called it; a manual join has none.
pub record Attempt : Type 0 where
  pub place : Place
  pub owner : Option ℕ
  pub notify_on_failure : Bool
  pub join_settled : Bool
  pub terminal_close : Bool
  pub error_dispatched : Bool

pub data Continuation : Type 0 where
  -- `proceed` of a rejoin
  proceed : ℕ → Continuation
  -- a manual join that waited for the teardown of the rejoin's client
  establish : Place → Continuation
  -- the rest of the `catch` of a failed join
  report_failure : (client : ℕ) → JoinFailure → (message : String) → Continuation
  -- the `finally` of an `error` and of a final `closed`
  report_error : (client : ℕ) → (message : String) → Continuation
  report_closed : Continuation
  -- the rest of `endActiveMeeting`
  end_meeting : (channel_id : Option String) → Continuation

pub data Outgoing : Type 0 where
  connect_client : ℕ → Place → Outgoing
  mark_drop leave_client : ℕ → Outgoing
  connect_livekit : ℕ → (url token : String) → Outgoing
  disconnect_livekit enable_mic disable_mic enable_cam : ℕ → Outgoing
  disable_cam disable_screen capture_display : ℕ → Outgoing
  list_sources show_picker : Outgoing
  capture_source : ℕ → (source_id : String) → Outgoing
  alert : (message : String) → Outgoing
  dismiss_on_server : (channel_id room_id : String) → Outgoing
  open_window : (path : List String) → Outgoing
  tell_client : ℕ → Command → Outgoing
  send_heartbeat end_on_server : String → Outgoing
  set_status clear_status : Outgoing
  enable_raise_hands send_debrief : ℕ → Outgoing

-- The `await` of a microphone's or a camera's toggle, with its LiveKit room.
pub data Switch : Type 0 where
  turning_on turning_off : ℕ → Switch

-- The `await` of a screen share's toggle.
pub data ScreenStage : Type 0 where
  withdrawing : ScreenStage
  capturing listing picking capturing_source : ℕ → ScreenStage

-- The LiveKit room whose disconnect, or else the client whose leave is waited for, the client that
-- is still to leave, and what goes on afterwards.
pub record Teardown : Type 0 where
  pub livekit : Option ℕ
  pub client : Option ℕ
  pub waiting : List Continuation

pub record Controller : Type 0 where
  pub root : RootState
  -- the time
  pub now : ℕ
  -- `activeStore` is set
  pub has_store : Bool
  pub client : Option ℕ
  pub livekit : Option ℕ
  -- the channel of the heartbeat interval
  pub heartbeat : Option String
  pub tearing_down : Option Teardown
  pub rejoin : Option PendingRejoin
  pub media_restore : Option LocalMediaState
  pub attempts : ℕ → Attempt
  -- the client whose closures brought up a LiveKit room
  pub livekit_client : ℕ → ℕ
  -- the locale is German
  pub german : Bool
  -- the next number for a client, a LiveKit room or a rejoin
  pub fresh : ℕ
  pub ready : List Continuation
  -- `micToggleInFlight`, `camToggleInFlight` and `screenToggleInFlight`
  pub mic_toggle : Option Switch
  pub cam_toggle : Option Switch
  pub screen_toggle : Option ScreenStage
  -- the track ids of the registry
  pub registry : List String
  -- newest first
  pub log : List Outgoing

abbrev pub rejoin_max_attempts : ℕ
rejoin_max_attempts = 5

unfoldable pub dispatch : Action → Controller → Controller
dispatch a w = record w { root = root_reducer w.now w.root a }

abbrev pub act : Outgoing → Controller → Controller
act o w = record w { log = o ∷ w.log }

abbrev pub is_current : Option ℕ → ℕ → Bool
is_current none k = false
is_current (some c) k = nat_eq c k

-- `t({de, en})`
abbrev pub t : Controller → String → String → String
t w de en = if w.german then de else en

abbrev pub notice_error : String → Controller → Controller
notice_error message w = dispatch (notice_set message (some error)) w

abbrev pub set_attempt : ℕ → Attempt → Controller → Controller
set_attempt k a w = record w { attempts = λ j. if nat_eq j k then a else w.attempts j }

-- The dispatches of a teardown, in their order.
abbrev pub teardown_actions : List Action
teardown_actions =
    tracks_reset
    ∷ participants_reset
    ∷ set_mic_enabled false
    ∷ set_cam_enabled false
    ∷ set_screen_share_enabled false
    ∷ set_livekit_connected false
    ∷ disconnected
    ∷ []

abbrev pub dispatch_all : List Action → Controller → Controller
dispatch_all [] w = w
dispatch_all (a ∷ as') w = dispatch_all as' (dispatch a w)

-- What a `then` on a promise that has settled does.
abbrev pub enqueue : List Continuation → Controller → Controller
enqueue ks w = record w { ready = w.ready ++ ks }

-- The two disconnects of a teardown, one after the other; without either nothing is waited for and
-- the callers go on.
unfoldable pub wait_for : Option ℕ → Option ℕ → List Continuation → Controller → Controller
wait_for (some lk) client ks w =
    act (disconnect_livekit lk) (record w {
      tearing_down = some (record { livekit = some lk; client = client; waiting = ks });
    })
wait_for none (some k) ks w =
    act (leave_client k)
      (record w { tearing_down = some (record { livekit = none; client = some k; waiting = ks }) })
wait_for none none ks w = enqueue ks (record w { tearing_down = none })

abbrev pub stop_media : Controller → Controller
stop_media w =
    act clear_status (record w { livekit = none; client = none; heartbeat = none; registry = [] })

abbrev pub forget_call : Controller → Controller
forget_call w = if w.has_store then dispatch_all teardown_actions w else w

abbrev pub tear_down_with : Option Teardown → List Continuation → Controller → Controller
tear_down_with (some t) ks w = enqueue ks w
tear_down_with none ks w = wait_for w.livekit w.client ks (forget_call (stop_media w))

-- `tearDownActiveConference()`, with what its caller does after it. A second call returns at once.
unfoldable pub tear_down : List Continuation → Controller → Controller
tear_down ks w = tear_down_with w.tearing_down ks w

abbrev pub end_teardown : Option Teardown → Controller → Controller
end_teardown none w = w
end_teardown (some t) w =
    if is_some t.livekit then wait_for none t.client t.waiting w else wait_for none none t.waiting w

-- The disconnect that is waited for has settled.
unfoldable pub teardown_ends : Controller → Controller
teardown_ends w = end_teardown w.tearing_down w

-- `cancelPendingRejoin()`; its timer goes with it.
abbrev pub cancel_pending_rejoin : Controller → Controller
cancel_pending_rejoin w = record w { rejoin = none; media_restore = none }

abbrev pub read_local_media_state : Controller → LocalMediaState
read_local_media_state w = record {
  mic = select_mic_enabled w.root;
  cam = select_cam_enabled w.root;
}
