-- ===== src/Components/Ringing/Window.antt =====
-- The window for incoming calls with its effects: the sound, the timer that declines, and the buttons
-- that a pending answer disables (incoming_call_modal/component.tsx and hooks/use_ringtone.ts of
-- webapp/src). It is a root that never unmounts. Where the browser refuses to play, the sound of the
-- model is the element that is there in vain.
pub mod Effects
pub mod Arming
pub mod Settled
pub mod Events
pub mod Sounding
pub mod Beginning
use Prim.Native.String.{◌++◌}
use mattermost_plugin_openta.Base.{
  ℕ, String, zero, suc, ◌+◌, Bool, true, false, not, ◌&&◌, ◌||◌, Option, none, some, List, [], ◌∷◌,
  Dict, ◌==◌, nat_eq, leb, size, is_some, option_eq, Storage, if◌then◌else◌,
}
use mattermost_plugin_openta.Store.Action.{IncomingCall}
use mattermost_plugin_openta.Store.Root.{RootState}
use mattermost_plugin_openta.Controller.State.{Controller}
use mattermost_plugin_openta.Controller.Calls.{Happening}
use mattermost_plugin_openta.Controller.Calls
use mattermost_plugin_openta.Plugin.Ringtone.{read_ringtone}
use mattermost_plugin_openta.Components.Ringing.{
  shown_incoming, latest_call, show_call, decline, declined, accept, accepted, is_idle,
}

-- The dependencies of the timer's effect, where a call is shown; without one it does nothing.
abbrev pub Watch : Type 0
Watch = Option (String × ℕ)

pub record Window : Type 0 where
  pub controller : Controller
  pub storage : Storage
  -- the audio element of the ringtone
  pub sound : Bool
  -- `isShowingCall` at the last render, and whether its effect listens to the setting
  pub showing : Bool
  pub listening : Bool
  pub watched : Watch
  -- when the timer that declines is due
  pub timer : Option ℕ
  -- `prevShownCallKey`, and the flag that disables the buttons
  pub key : Option String
  pub busy : Bool

abbrev pub shown_of : Window → Option IncomingCall
shown_of w = shown_incoming w.controller.root

-- `shownCallKey`
abbrev pub key_of : Option IncomingCall → Option String
key_of none = none
key_of (some c) = some (c.channel_id ++ ":" ++ c.room_id ++ ":" ++ c.host_user_id)

-- During the render: another call, or none, has buttons of its own.
unfoldable pub reset_buttons : Window → Window
reset_buttons w =
    let key = key_of (shown_of w) in
    if option_eq key w.key then w else record w { key = key; busy = false }

abbrev pub start_ring : Window → Window
start_ring w =
    let (storage, enabled) = read_ringtone w.storage in
    if enabled
    then record w { storage = storage; showing = true; listening = true; sound = true }
    else record w { storage = storage; showing = true }

abbrev pub stop_ring : Window → Window
stop_ring w =
    if w.listening
    then record w { showing = false; listening = false; sound = false }
    else record w { showing = false }

-- The effect on `isShowingCall` that rings.
unfoldable pub ring_effect : Window → Window
ring_effect w =
    if is_some (shown_of w)
    then if w.showing then w else start_ring w
    else if w.showing
    then stop_ring w
    else w

abbrev pub watch : Option IncomingCall → Watch
watch none = none
watch (some c) = some (c.channel_id, c.received_at)

abbrev pub is_same : Watch → Watch → Bool
is_same none none = true
is_same none (some b) = false
is_same (some a) none = false
is_same (some (i, m)) (some (j, n)) = i == j && nat_eq m n

abbrev pub due_in : Option ℕ → (now : ℕ) → Option ℕ
due_in none now = none
due_in (some remaining) now = some (now + remaining)

-- The effect of the timer, and whether it wrote to the store.
unfoldable pub arm : Option IncomingCall → Window → Window × Bool
arm none w = (record w { watched = none; timer = none }, false)
arm (some c) w =
    let (controller, remaining) = show_call c w.controller in
    (
      record w {
        controller = controller;
        watched = watch (some c);
        timer = due_in remaining w.controller.now;
      },
      not (is_some remaining),
    )

-- The render after a change, with its effects; a write by an effect renders again.
unfoldable pub render : (fuel : ℕ) → Window → Window
render zero w = w
render (suc n) w =
    let q = ring_effect (reset_buttons w) in
    let (armed, wrote) = arm (shown_of w) q in
    let rest = render n armed in
    if is_same (watch (shown_of w)) w.watched then q else if wrote then rest else armed

-- Each further render has a call less.
unfoldable pub renders : Window → Window
renders w = render (suc (suc (size w.controller.root.incoming_calls.calls))) w

-- `onDecline` up to its request.
abbrev pub on_decline : Option IncomingCall → Window → Window
on_decline none w = w
on_decline (some c) w = record w { busy = true; sound = false; controller = decline c w.controller }

-- `onAccept` up to its `await`.
abbrev pub on_accept : Option IncomingCall → (display_name : String) → Window → Window
on_accept none display_name w = w
on_accept (some c) display_name w = record w {
  busy = true;
  sound = false;
  controller = accept c display_name w.controller;
}

abbrev pub fire : Option ℕ → Window → Window
fire none w = w
fire (some due) w =
    if leb due w.controller.now
    then on_decline (latest_call w.controller.root) (record w { timer = none })
    else w

pub data WindowEvent : Type 0 where
  -- a button, or the key for it, which a pending answer does not disable
  declines : (by_key : Bool) → WindowEvent
  accepts : (by_key : Bool) → (display_name : String) → WindowEvent
  -- the server's answer to `dismissIncomingCall`, and the pause after it
  dismissed : (worked : Bool) → WindowEvent
  clears : IncomingCall → WindowEvent
  -- `startConferenceConnection` has settled
  started : IncomingCall → WindowEvent
  -- the timer that declines
  fires : WindowEvent
  waits : ℕ → WindowEvent
  -- the setting was written, in this tab or in another, and its event has come
  setting_changes : Storage → WindowEvent
  -- anything else that happens to the controller
  happens : Happening → WindowEvent

-- `stopIfDisabled`, where the effect listens.
abbrev pub hear : Window → Window
hear w =
    let (storage, enabled) = read_ringtone w.storage in
    if w.listening then record w { storage = storage; sound = w.sound && enabled } else w

abbrev pub can_click : (by_key : Bool) → Window → Bool
can_click by_key w = is_some (shown_of w) && (by_key || not w.busy)

abbrev pub on_event : WindowEvent → Window → Window
on_event (declines by_key) w =
    if can_click by_key w then on_decline (latest_call w.controller.root) w else w
on_event (accepts by_key display_name) w =
    if can_click by_key w then on_accept (latest_call w.controller.root) display_name w else w
on_event (dismissed worked) w = if worked then w else record w { busy = false }
on_event (clears c) w = record w { controller = declined c w.controller }
on_event (started c) w =
    if is_idle w.controller.root.session.status
    then record w { busy = false }
    else record w { controller = accepted c w.controller }
on_event fires w = fire w.timer w
on_event (waits n) w = record w { controller = record w.controller { now = w.controller.now + n } }
on_event (setting_changes storage) w = hear (record w { storage = storage })
on_event (happens h) w = record w { controller = Calls.step h w.controller }

unfoldable pub step : WindowEvent → Window → Window
step e w = renders (on_event e w)

unfoldable pub run : List WindowEvent → Window → Window
run [] w = w
run (e ∷ es) w = run es (step e w)

-- The first render.
unfoldable pub mount : Controller → Storage → Window
mount controller storage = renders (record {
  controller = controller;
  storage = storage;
  sound = false;
  showing = false;
  listening = false;
  watched = none;
  timer = none;
  key = none;
  busy = false;
})
