-- ===== src/Hooks/AutoHide/Visible.antt =====
-- When controls are visible, and that they hide in the end.
use mattermost_plugin_openta.Base.{
  ◌≡◌, refl, Bool, true, false, not, ◌&&◌, ◌||◌, List, [], ◌∷◌, arith,
}
use mattermost_plugin_openta.Hooks.AutoHide.{
  AutoHide, arm, mount, render, change_idle, on_activity, on_timer, on_pointer_enter,
  on_pointer_leave, visible, HideEvent, renders, idle_changes, activity, timer, enters, leaves,
  step, run,
}

-- Held or disabled controls are visible and no timer runs for them; enabled ones that are visible and
-- not held have a timer that will hide them.
pub record IsHiding (h : AutoHide) : Type 0 where
  pub shown : (not h.enabled || h.held) ≡ true → visible h ≡ true
  pub calm : (not h.enabled || h.held) ≡ true → h.armed ≡ false
  pub will_hide : (h.enabled && visible h && not h.held) ≡ true → h.armed ≡ true

-- The same as a test of the four variables; a hidden flag has no effect where disabled, but is not set.
fine : (enabled hidden held armed : Bool) → Bool
fine false hidden held armed = not armed && not hidden
fine true hidden true armed = not armed && not hidden
fine true hidden false armed = armed || hidden

test : AutoHide → Bool
unfolding fine
test h = fine h.enabled h.hidden h.held h.armed

turned : (b : Bool) (h : AutoHide) → test h ≡ true → test (render b h) ≡ true
unfolding test fine render arm
turned true h k = ground arith
turned false h k = ground arith

step-test : (e : HideEvent) (h : AutoHide) → test h ≡ true → test (step e h) ≡ true
unfolding test fine step change_idle on_activity on_timer on_pointer_enter on_pointer_leave arm
step-test (renders b) h k = turned b h k
step-test idle_changes h k = ground arith
step-test activity h k = ground arith
step-test timer h k = ground arith
step-test enters h k = ground arith
step-test leaves h k = ground arith

run-test : (es : List HideEvent) (h : AutoHide) → test h ≡ true → test (run es h) ≡ true
unfolding run
run-test [] h k = k
run-test (e ∷ es) h k = run-test es (step e h) (step-test e h k)

mount-test : (b : Bool) → test (mount b) ≡ true
unfolding test fine mount arm
mount-test true = refl
mount-test false = refl

test-IsHiding : (h : AutoHide) → test h ≡ true → IsHiding h
unfolding test fine
test-IsHiding h k = record { shown = ground arith; calm = ground arith; will_hide = ground arith }

-- After any events from a mount, held or disabled controls are visible and no timer runs for them, and
-- enabled ones that are visible and not held have a timer that runs.
pub run-IsHiding : (enabled : Bool) (es : List HideEvent) → IsHiding (run es (mount enabled))
run-IsHiding enabled es = test-IsHiding _ (run-test es (mount enabled) (mount-test enabled))
