-- ===== src/Components/Leaving/Prompts.antt =====
-- The prompt of the expanded view goes with its call.
use mattermost_plugin_openta.Base.{◌≡◌, refl, true, List, [], ◌∷◌, arith, ◌∙◌}
use mattermost_plugin_openta.Components.Leaving.{
  Views, ViewEvent, mini_hangup, expanded_hangup, mini_answer, expanded_answer, minimizes, escapes,
  happens, is_active, render, on_event, step, run,
}

-- The prompt of the expanded view stands open only in a call that it shows.
pub record IsAttached (v : Views) : Type 0 where
  pub current : v.was_active ≡ is_active v.controller
  pub open_only : v.expanded_prompt ≡ true → is_active v.controller ≡ true

-- Before the effects of the render: an open prompt was open, or is in a call.
abbrev Waits : Views → Type 0
Waits v = v.expanded_prompt ≡ true → v.was_active ≡ true

render-IsAttached : (v : Views) → Waits v → IsAttached (render v)
render-IsAttached v h = record { current = refl; open_only = λ o. ground (arith, h) }

on_event-Waits : (e : ViewEvent) (v : Views) → IsAttached v → Waits (on_event e v)
on_event-Waits (mini_hangup t) v a = ground (arith, a.open_only)
on_event-Waits (expanded_hangup t) v a = ground (arith, a.open_only)
on_event-Waits (mini_answer x) v a = ground (arith, a.open_only)
on_event-Waits (expanded_answer x) v a = ground (arith, a.open_only)
on_event-Waits minimizes v a = ground (arith, a.open_only)
on_event-Waits escapes v a = ground (arith, a.open_only)
on_event-Waits (happens h) v a = λ o. a.current ∙ a.open_only o

step-IsAttached : (e : ViewEvent) (v : Views) → IsAttached v → IsAttached (step e v)
unfolding step
step-IsAttached e v a = render-IsAttached (on_event e v) (on_event-Waits e v a)

-- After any clicks and keys, and whatever happens to the call, the prompt of the expanded view stands
-- open only while the view shows a call.
pub run-IsAttached : (es : List ViewEvent) (v : Views) → IsAttached v → IsAttached (run es v)
unfolding run
run-IsAttached [] v a = a
run-IsAttached (e ∷ es) v a = run-IsAttached es (step e v) (step-IsAttached e v a)
