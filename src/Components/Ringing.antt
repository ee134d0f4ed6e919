-- ===== src/Components/Ringing.antt =====
-- Which of the two windows shows an incoming call, the toast about a meeting, and their buttons
-- (incoming_call_modal, switch_call_modal and channel_call_toast of webapp/src/components). What follows
-- an `await` or a timer is a function of its own.
pub mod Latest
pub mod Window
use mattermost_plugin_openta.Base.{
  ℕ, String, Bool, true, false, not, ◌&&◌, ◌||◌, Option, none, some, List, [], ◌∷◌, ◌==◌, Dict,
  lookup, option_eq, truthy_option, truthy, ltb, leb, ◌-◌, ◌+◌, if◌then◌else◌,
}
use mattermost_plugin_openta.Store.Action.{
  IncomingCall, ActiveMeeting, incoming_call_dismissed, incoming_call_cleared,
  active_meeting_dismissed,
}
use mattermost_plugin_openta.Store.Session.{SessionStatus, idle, is_true}
use mattermost_plugin_openta.Store.Root.{RootState}
use mattermost_plugin_openta.Controller.State.{Controller, dismiss_on_server, dispatch, act}
use mattermost_plugin_openta.Controller.Join.{start_conference_connection}
use mattermost_plugin_openta.Controller.Calls.{leave_active_conference}

-- `INCOMING_CALL_FRESHNESS_MS`
abbrev pub freshness : ℕ
freshness = 30000

-- The values of the slice that are not dismissed, in their order.
abbrev pub live_calls : Dict IncomingCall → List IncomingCall
live_calls [] = []
live_calls ((id, c) ∷ d) = let rest = live_calls d in if is_true c.dismissed then rest else c ∷ rest

-- `reduce` from a first call: a later one is taken where it was received after it.
abbrev pub later_of : IncomingCall → List IncomingCall → IncomingCall
later_of c [] = c
later_of c (d ∷ ds) = later_of (if ltb c.received_at d.received_at then d else c) ds

abbrev pub latest : List IncomingCall → Option IncomingCall
latest [] = none
latest (c ∷ cs) = some (later_of c cs)

-- `call` of both windows
unfoldable pub latest_call : RootState → Option IncomingCall
latest_call s = latest (live_calls s.incoming_calls.calls)

abbrev pub is_idle : SessionStatus → Bool
is_idle idle = true
is_idle _ = false

abbrev pub unless : Bool → Option IncomingCall → Option IncomingCall
unless true o = none
unless false o = o

-- The call that the incoming call window shows.
unfoldable pub shown_incoming : RootState → Option IncomingCall
shown_incoming s = unless (not (is_idle s.session.status)) (latest_call s)

abbrev pub elsewhere : Option String → Option IncomingCall → Option IncomingCall
elsewhere channel_id none = none
elsewhere channel_id (some c) = unless (option_eq (some c.channel_id) channel_id) (some c)

-- The call that the window for switching shows.
unfoldable pub shown_switch : RootState → Option IncomingCall
shown_switch s = unless (is_idle s.session.status) (elsewhere s.session.channel_id (latest_call s))

abbrev pub is_direct : Option String → Bool
is_direct channel_type = option_eq channel_type (some "D") || option_eq channel_type (some "G")

abbrev toast_of : RootState → (channel_id : String) → Option String → Option ActiveMeeting
toast_of s channel_id channel_type =
    let here = not (is_idle s.session.status) && option_eq s.session.channel_id (some channel_id) in
    elim (lookup channel_id s.active_meetings.meetings) [
      | none ↦ none
      | some m ↦ if is_true m.dismissed || is_direct channel_type || here then none else some m
    ]

-- The meeting that the toast shows, for the current channel and its type.
unfoldable pub shown_toast : RootState → Option String → Option String → Option ActiveMeeting
shown_toast s none channel_type = none
shown_toast s (some channel_id) channel_type =
    if truthy channel_id then toast_of s channel_id channel_type else none

-- `onDecline` and `onCancel` up to their request.
unfoldable pub decline : IncomingCall → Controller → Controller
decline c w =
    act (dismiss_on_server c.channel_id c.room_id)
      (dispatch (incoming_call_dismissed c.channel_id) w)

-- The timer after a decline.
unfoldable pub declined : IncomingCall → Controller → Controller
declined c w = dispatch (incoming_call_cleared c.channel_id) w

-- `onAccept` up to its `await`.
unfoldable pub accept : IncomingCall → (display_name : String) → Controller → Controller
accept c display_name w =
    start_conference_connection
      (record { room_id = c.room_id; channel_id = c.channel_id; display_name = display_name }) w

-- The rest of `onAccept` and of `onSwitch`: a call that led to no session keeps ringing.
unfoldable pub accepted : IncomingCall → Controller → Controller
accepted c w =
    if is_idle w.root.session.status then w else dispatch (incoming_call_cleared c.channel_id) w

-- `onSwitch` up to its first `await`; after it and a pause, `accept` and `accepted` follow.
unfoldable pub switch_call : Controller → Controller
switch_call w = leave_active_conference w

unfoldable pub dismiss_toast : ActiveMeeting → Controller → Controller
dismiss_toast m w = dispatch (active_meeting_dismissed m.channel_id) w

-- What the effect of a shown call does at this time: a stale one is cleared, another is declined after
-- what remains of its freshness, which is the result.
unfoldable pub show_call : IncomingCall → Controller → Controller × Option ℕ
show_call c w =
    let due = c.received_at + freshness in
    if leb due w.now
    then (dispatch (incoming_call_cleared c.channel_id) w, none)
    else (w, some (due - w.now))
