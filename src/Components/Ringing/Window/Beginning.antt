-- ===== src/Components/Ringing/Window/Beginning.antt =====
-- A call that comes to a window without one.
use mattermost_plugin_openta.Base.{
  ◌+◌, ◌<◌, ◌≡◌, refl, ◌∙◌, ap, Bool, true, false, Option, none, some, List, is_some, arith, leb,
  Storage,
}
use mattermost_plugin_openta.Store.Action.{IncomingCall}
use mattermost_plugin_openta.Controller.State.{Controller}
use mattermost_plugin_openta.Controller.Calls
use mattermost_plugin_openta.Controller.Calls.{Happening}
use mattermost_plugin_openta.Plugin.Ringtone.{read_ringtone}
use mattermost_plugin_openta.Components.Ringing.{freshness, shown_incoming, show_call}
use mattermost_plugin_openta.Components.Ringing.Window.{
  Watch, Window, shown_of, reset_buttons, ring_effect, watch, is_same, arm, render, renders,
  WindowEvent, happens, step, run, mount,
}
use mattermost_plugin_openta.Components.Ringing.Window.Effects.{
  reset-controller, effects, effects-Effective,
}
use mattermost_plugin_openta.Components.Ringing.Window.Sounding.{run-IsSettled, mount-IsSettled}

-- A window that watches nothing sees the call that comes.
unwatched :
    (o : Option IncomingCall) (v : Watch) (c : IncomingCall)
    → is_some o ≡ false
    → is_same (watch o) v ≡ true
    → is_same (watch (some c)) v ≡ false
unwatched none none c h same = refl
unwatched none (some b) c h same = cc
unwatched (some d) v c h same = cc

ring-sound :
    (w : Window)
    → is_some (shown_of w) ≡ true
    → w.showing ≡ false
    → (read_ringtone w.storage).1 ≡ true
    → (ring_effect w).sound ≡ true
unfolding ring_effect
ring-sound w call hidden on = simp (call, hidden, on) refl

reset-showing : (w : Window) → (reset_buttons w).showing ≡ w.showing
unfolding reset_buttons
reset-showing w = ground arith

reset-storage : (w : Window) → (reset_buttons w).storage ≡ w.storage
unfolding reset_buttons
reset-storage w = ground arith

effects-sound :
    (w : Window) (c : IncomingCall)
    → shown_of w ≡ some c
    → w.showing ≡ false
    → (read_ringtone w.storage).1 ≡ true
    → (effects w).sound ≡ true
effects-sound w c call hidden on =
    ring-sound (reset_buttons w)
      (ap (λ k. is_some (shown_incoming k.root)) (reset-controller w) ∙ ap is_some call)
      (reset-showing w ∙ hidden) (ap (λ s. (read_ringtone s).1) (reset-storage w) ∙ on)

-- What the timer's effect does for a call that is not stale.
record ArmedFor (c : IncomingCall) (q a : Window) (wrote : Bool) : Type 0 where
  quiet : wrote ≡ false
  timed : a.timer ≡ some (c.received_at + freshness)
  as_loud : a.sound ≡ q.sound

arm-ArmedFor :
    (c : IncomingCall) (q : Window)
    → q.controller.now < c.received_at + freshness
    → ArmedFor c q (arm (some c) q).0 (arm (some c) q).1
unfolding arm show_call
arm-ArmedFor c q fresh =
    let early : leb (c.received_at + freshness) q.controller.now ≡ false = ground arith in
    rw early (record { quiet = refl; timed = ap some (omega arith); as_loud = refl })

comes :
    (w : Window) (c : IncomingCall)
    → shown_of w ≡ some c
    → w.showing ≡ false
    → is_same (watch (some c)) w.watched ≡ false
    → w.controller.now < c.received_at + freshness
    → (read_ringtone w.storage).1 ≡ true
    → ((renders w).sound ≡ true) × ((renders w).timer ≡ some (c.received_at + freshness))
unfolding renders render
comes w c call hidden new fresh on =
    let e = effects-Effective w in
    let a = arm-ArmedFor c (effects w) (rw e.same_controller fresh) in
    simp (call, new, a.quiet) (a.as_loud ∙ effects-sound w c call hidden on, a.timed)

-- In a window that shows no call, after any events from the first render: when a call comes to be shown
-- that is not stale, whatever happened to the controller, and the setting allows rings, the window
-- rings, and its timer is due when that call gets stale.
pub run-call-rings :
    (es : List WindowEvent) (k : Controller) (s : Storage) (h : Happening) (c : IncomingCall)
    → is_some (shown_of (run es (mount k s))) ≡ false
    → shown_incoming (Calls.step h (run es (mount k s)).controller).root ≡ some c
    → (Calls.step h (run es (mount k s)).controller).now < c.received_at + freshness
    → (read_ringtone (run es (mount k s)).storage).1 ≡ true
    → ((step (happens h) (run es (mount k s))).sound ≡ true)
      × ((step (happens h) (run es (mount k s))).timer ≡ some (c.received_at + freshness))
unfolding step
run-call-rings es k s h c silent call fresh on =
    let w = run es (mount k s) in
    let g = run-IsSettled es (mount k s) (mount-IsSettled k s) in
    comes (record w { controller = Calls.step h w.controller }) c call (g.done.shows ∙ silent)
      (unwatched (shown_of w) w.watched c silent g.done.current) fresh on
