-- ===== src/Components/Ringing/Window/Sounding.antt =====
-- What the window rings, times and disables after any run from its first render.
use mattermost_plugin_openta.Base.{
  ℕ, ◌+◌, ◌≡◌, refl, sym, ◌∙◌, true, Option, none, some, List, [], ◌∷◌, is_some, Storage,
}
use mattermost_plugin_openta.Store.Action.{IncomingCall}
use mattermost_plugin_openta.Controller.State.{Controller}
use mattermost_plugin_openta.Plugin.Ringtone.{read_ringtone}
use mattermost_plugin_openta.Components.Ringing.{freshness}
use mattermost_plugin_openta.Components.Ringing.Window.{
  Window, shown_of, watch, WindowEvent, on_event, step, run, mount,
}
use mattermost_plugin_openta.Components.Ringing.Window.Effects.{deadline_of}
use mattermost_plugin_openta.Components.Ringing.Window.Settled.{IsSettled, renders-IsSettled}
use mattermost_plugin_openta.Components.Ringing.Window.Events.{
  key-owned, timed-shown, on_event-Kept,
}

pub run-IsSettled : (es : List WindowEvent) (w : Window) → IsSettled w → IsSettled (run es w)
unfolding run step
run-IsSettled [] w s = s
run-IsSettled (e ∷ es) w s =
    run-IsSettled es (step e w) (renders-IsSettled (on_event e w) (on_event-Kept e w s))

pub mount-IsSettled : (k : Controller) (s : Storage) → IsSettled (mount k s)
unfolding mount
mount-IsSettled k s = renders-IsSettled _ (record {
  heard = λ e. cc;
  listens = λ e. cc;
  enabled = λ e. cc;
  armed = λ due e. cc;
  owned = λ e. cc;
})

-- When the shown call gets stale.
abbrev deadline : Option IncomingCall → Option ℕ
deadline none = none
deadline (some c) = some (c.received_at + freshness)

deadline-watch : (o : Option IncomingCall) → deadline_of (watch o) ≡ deadline o
unfolding deadline_of
deadline-watch none = refl
deadline-watch (some c) = refl

-- The window rings only for a call that it shows, and only while the setting allows it; the timer that
-- declines is due when that call gets stale, and buttons are disabled only with a call.
pub record RingsFor (o : Option IncomingCall) (w : Window) : Type 0 where
  pub audible : w.sound ≡ true → (is_some o ≡ true) × ((read_ringtone w.storage).1 ≡ true)
  pub timed : (due : ℕ) → w.timer ≡ some due → deadline o ≡ some due
  pub disabled : w.busy ≡ true → is_some o ≡ true

-- After any events from the first render, with any calls, answers and changes of the setting: the
-- window is silent unless it shows a call and the setting allows rings, a timer that is armed is due
-- exactly when the call that is shown gets stale, and no disabled buttons are left without a call.
pub run-RingsFor :
    (es : List WindowEvent) (k : Controller) (s : Storage)
    → RingsFor (shown_of (run es (mount k s))) (run es (mount k s))
run-RingsFor es k s =
    let w = run es (mount k s) in
    let g = run-IsSettled es (mount k s) (mount-IsSettled k s) in
    record {
      audible = λ e. (sym g.done.shows ∙ g.kept.listens (g.kept.heard e), g.kept.enabled e);
      timed = λ due e. sym (deadline-watch (shown_of w)) ∙ timed-shown w due g e;
      disabled = λ e. key-owned (shown_of w) w.key g.done.keyed ∙ g.kept.owned e;
    }
