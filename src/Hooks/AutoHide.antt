-- ===== src/Hooks/AutoHide.antt =====
-- Controls that hide when nothing happens (webapp/src/hooks/use_auto_hide.ts).
pub mod Visible
use mattermost_plugin_openta.Base.{Bool, true, false, not, ◌&&◌, ◌||◌, List, [], ◌∷◌, if◌then◌else◌}

pub record AutoHide : Type 0 where
  pub enabled : Bool
  pub hidden : Bool
  -- `heldRef`
  pub held : Bool
  -- a timer runs
  pub armed : Bool

-- `arm`: the timer that runs is cleared, and a new one started unless the controls are held.
unfoldable pub arm : AutoHide → AutoHide
arm h = record h { armed = h.enabled && not h.held }

-- The effects of a mount.
unfoldable pub mount : (enabled : Bool) → AutoHide
unfolding arm
mount enabled = arm (record { enabled = enabled; hidden = false; held = false; armed = false })

abbrev turn : (was now : Bool) → AutoHide → AutoHide
turn true true h = h
turn false false h = h
turn false true h = arm (record h { enabled = true })
turn true false h = record { enabled = false; hidden = false; held = false; armed = false }

-- A render with `enabled`: effects run, and those before are cleaned up, only where it has changed.
unfoldable pub render : (enabled : Bool) → AutoHide → AutoHide
render enabled h = turn h.enabled enabled h

-- A render with another `idleMs`: the effect that arms runs again.
unfoldable pub change_idle : AutoHide → AutoHide
change_idle h = if h.enabled then arm h else h

-- `onActivity`, which listens only where enabled
unfoldable pub on_activity : AutoHide → AutoHide
on_activity h = if h.enabled then arm (record h { hidden = false }) else h

unfoldable pub on_timer : AutoHide → AutoHide
on_timer h = if h.armed then record h { hidden = true; armed = false } else h

unfoldable pub on_pointer_enter : AutoHide → AutoHide
on_pointer_enter h = arm (record h { held = true; hidden = false })

unfoldable pub on_pointer_leave : AutoHide → AutoHide
on_pointer_leave h = arm (record h { held = false })

abbrev pub visible : AutoHide → Bool
visible h = not h.enabled || not h.hidden

pub data HideEvent : Type 0 where
  renders : (enabled : Bool) → HideEvent
  idle_changes activity timer enters leaves : HideEvent

unfoldable pub step : HideEvent → AutoHide → AutoHide
step (renders enabled) h = render enabled h
step idle_changes h = change_idle h
step activity h = on_activity h
step timer h = on_timer h
step enters h = on_pointer_enter h
step leaves h = on_pointer_leave h

unfoldable pub run : List HideEvent → AutoHide → AutoHide
run [] h = h
run (e ∷ es) h = run es (step e h)
