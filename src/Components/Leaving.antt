-- ===== src/Components/Leaving.antt =====
-- The hangup buttons of the mini bar and of the expanded view, with the prompt that asks a room's
-- owner whether to leave or to end the meeting (meeting_mini_bar/component.tsx,
-- expanded_view/component.tsx and leave_call_modal of webapp/src/components).
pub mod Prompts
use mattermost_plugin_openta.Base.{
  String, Bool, true, false, not, ◌&&◌, Option, List, [], ◌∷◌, if◌then◌else◌,
}
use mattermost_plugin_openta.Store.Action.{set_expanded}
use mattermost_plugin_openta.Store.Session.{SessionStatus, is_connected}
use mattermost_plugin_openta.Controller.State.{Controller, dispatch}
use mattermost_plugin_openta.Controller.Calls.{
  Happening, leave_active_conference, end_active_meeting,
}
use mattermost_plugin_openta.Controller.Calls
use mattermost_plugin_openta.Components.Ringing.{is_idle, is_direct}

-- Both components are roots that never unmount.
pub record Views : Type 0 where
  pub controller : Controller
  -- `showLeavePrompt` of each
  pub mini_prompt : Bool
  pub expanded_prompt : Bool
  -- `active` of the expanded view at its last render
  pub was_active : Bool

abbrev is_up : SessionStatus → Bool
is_up is_connected = true
is_up _ = false

-- `active`: the expanded view shows itself.
abbrev pub is_active : Controller → Bool
is_active w = w.root.session.expanded && is_up w.root.session.status

-- The mini bar shows itself, with its controls.
abbrev pub is_mini : Controller → Bool
is_mini w =
    let s = w.root.session in
    not (is_idle s.status) && not s.expanded && not (is_up s.status && s.minimized)

-- The effect on `active`: when it goes, the prompt of the expanded view is closed.
abbrev pub render : Views → Views
render v =
    let now = is_active v.controller in
    record v {
      expanded_prompt = if v.was_active && not now then false else v.expanded_prompt;
      was_active = now;
    }

-- `onLeaveClick` of both: whether a prompt is open after it, and what it does.
abbrev pub leave_click : (channel_type : Option String) → Bool → Controller → Bool × Controller
leave_click channel_type prompt w =
    let is_owner = w.root.session.is_room_owner in
    if is_owner && is_direct channel_type
    then (prompt, end_active_meeting w)
    else if is_owner
    then (true, w)
    else (prompt, leave_active_conference w)

abbrev pub collapse : Views → Views
collapse v = record v {
  expanded_prompt = false;
  controller = dispatch (set_expanded false) v.controller;
}

-- The answers to a prompt.
pub data Answer : Type 0 where
  close leave_only end_for_all : Answer

abbrev pub answer : Answer → Controller → Controller
answer close w = w
answer leave_only w = leave_active_conference w
answer end_for_all w = end_active_meeting w

pub data ViewEvent : Type 0 where
  mini_hangup expanded_hangup : (channel_type : Option String) → ViewEvent
  mini_answer expanded_answer : Answer → ViewEvent
  -- the minimize button of the expanded view, and the escape key
  minimizes escapes : ViewEvent
  -- anything else that happens to the call
  happens : Happening → ViewEvent

-- What is not shown is not clicked.
abbrev pub on_event : ViewEvent → Views → Views
on_event (mini_hangup channel_type) v =
    let (prompt, w) = leave_click channel_type v.mini_prompt v.controller in
    if is_mini v.controller then record v { mini_prompt = prompt; controller = w } else v
on_event (expanded_hangup channel_type) v =
    let (prompt, w) = leave_click channel_type v.expanded_prompt v.controller in
    if is_active v.controller then record v { expanded_prompt = prompt; controller = w } else v
on_event (mini_answer a) v =
    if is_mini v.controller && v.mini_prompt
    then record v { mini_prompt = false; controller = answer a v.controller }
    else v
on_event (expanded_answer a) v =
    if is_active v.controller && v.expanded_prompt
    then record v { expanded_prompt = false; controller = answer a v.controller }
    else v
on_event minimizes v = if is_active v.controller then collapse v else v
on_event escapes v =
    if is_active v.controller
    then if v.expanded_prompt then record v { expanded_prompt = false } else collapse v
    else v
on_event (happens h) v = record v { controller = Calls.step h v.controller }

unfoldable pub step : ViewEvent → Views → Views
step e v = render (on_event e v)

unfoldable pub run : List ViewEvent → Views → Views
run [] v = v
run (e ∷ es) v = run es (step e v)
