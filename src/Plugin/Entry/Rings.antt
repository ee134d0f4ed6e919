-- ===== src/Plugin/Entry/Rings.antt =====
-- Which calls ring.
use mattermost_plugin_openta.Base.{
  String, ◌≡◌, refl, Bool, true, false, Option, none, some, ◌==◌, lookup, option_eq, if◌then◌else◌,
  Bool-cases, Option-cases, inl, inr, ap, ◌∙◌,
}
use mattermost_plugin_openta.Store.Action.{
  Action, IncomingCall, incoming_call_dismissed, incoming_call_cleared, active_meeting_ended,
}
use mattermost_plugin_openta.Store.Calls.Laws.{call_step, fresh_call, incoming_calls-call}
use mattermost_plugin_openta.Store.Root.{root_reducer}
use mattermost_plugin_openta.Controller.State.{Controller, dispatch}
use mattermost_plugin_openta.Controller.Calls.{Happening, leaves, writes, leave_active_conference}
use mattermost_plugin_openta.Controller.Calls
use mattermost_plugin_openta.Controller.Apart.Steps.{step-SamePlugin, is_controllers}
use mattermost_plugin_openta.Plugin.Entry.{
  Host, MeResponse, is_ignored, is_removed, is_in_channel, call_of, PluginEvent,
  user_connected_state, meeting_ended, meeting_started, incoming_call, ring_setting_changed,
  incoming_call_dismissed, user_removed, seeded, kills_ring, uninitialized, happens, step,
  on_user_connected_state, on_meeting_ended, on_meeting_started, on_incoming_call,
  on_ring_setting_changed, on_incoming_call_dismissed, on_user_removed, on_seeded, kill_ring,
  uninitialize,
}

-- The incoming call of each channel.
abbrev pub ring : Host → String → Option IncomingCall
ring h j = lookup j h.controller.root.incoming_calls.calls

-- The incoming call of each channel after an event: a message rings unless it is ignored, the end of a
-- meeting, its dismissal by the user and the emergency stop clear, another write does what it does,
-- and nothing else touches a call.
abbrev pub ring_step : Host → PluginEvent → String → Option IncomingCall
ring_step h (meeting_ended id) j = if id == j then none else ring h j
ring_step h (incoming_call m) j =
    if is_ignored m h
    then ring h j
    else if m.channel_id == j
    then some (fresh_call (call_of h.controller.now m))
    else ring h j
ring_step h (incoming_call_dismissed id user) j =
    if option_eq (some user) h.user_id then (if id == j then none else ring h j) else ring h j
ring_step h kills_ring j = none
ring_step h (happens (writes a)) j = call_step (ring h) a j
ring_step h _ j = ring h j

dispatch-call :
    (a : Action) (w : Controller) (j : String)
    → lookup j (dispatch a w).root.incoming_calls.calls
      ≡ call_step (λ k. lookup k w.root.incoming_calls.calls) a j
unfolding dispatch root_reducer
dispatch-call a w j = incoming_calls-call w.root.incoming_calls a j

leave-calls :
    (w : Controller) → (leave_active_conference w).root.incoming_calls ≡ w.root.incoming_calls
unfolding Calls.step
leave-calls w = (step-SamePlugin leaves w refl).calls

happens-call :
    (e : Happening) (w : Controller) (j : String)
    → is_controllers e ≡ true
    → lookup j (Calls.step e w).root.incoming_calls.calls ≡ lookup j w.root.incoming_calls.calls
happens-call e w j m = ap (λ s. lookup j s.calls) (step-SamePlugin e w m).calls

ended-call :
    (id : String) (b : Bool) (w : Controller) (j : String)
    → lookup j
        (dispatch (active_meeting_ended id) (
          dispatch
            (incoming_call_cleared id)
            (if b then leave_active_conference w else w))).root.incoming_calls.calls
      ≡ (if id == j then none else lookup j w.root.incoming_calls.calls)
ended-call id true w j =
    dispatch-call (active_meeting_ended id) _ j
    ∙ dispatch-call (incoming_call_cleared id) _ j
    ∙ ap (λ s. if id == j then none else lookup j s.calls) (leave-calls w)
ended-call id false w j =
    dispatch-call (active_meeting_ended id) _ j ∙ dispatch-call (incoming_call_cleared id) w j

seeded-call : (me : Option MeResponse) (h : Host) (j : String) → ring (on_seeded me h) j ≡ ring h j
unfolding on_seeded
seeded-call none h j = refl
seeded-call (some me) h j = elim (Option-cases me.ringtone_enabled) [
  | inl unset ↦ simp unset (dispatch-call _ h.controller j)
  | inr (b, set) ↦ simp set (dispatch-call _ h.controller j)
]

-- The incoming call of each channel, after each event of the plugin, is the one of `ring_step`.
pub step-ring : (e : PluginEvent) (h : Host) (j : String) → ring (step e h) j ≡ ring_step h e j
unfolding step on_user_connected_state on_meeting_ended on_meeting_started on_incoming_call
    on_ring_setting_changed on_incoming_call_dismissed on_user_removed kill_ring uninitialize
step-ring (user_connected_state c e) h j = dispatch-call _ h.controller j
step-ring (meeting_ended id) h j = ended-call id (is_in_channel id h.controller) h.controller j
step-ring (meeting_started m) h j = dispatch-call _ h.controller j
step-ring (incoming_call m) h j = elim (Bool-cases (is_ignored m h)) [
  | inl ignored ↦ simp ignored refl
  | inr rings ↦ simp rings (dispatch-call _ h.controller j)
]
step-ring (ring_setting_changed u b) h j = elim (Bool-cases (option_eq (some u) h.user_id)) [
  | inl mine ↦ simp mine refl
  | inr other ↦ simp other refl
]
step-ring (incoming_call_dismissed id u) h j = elim (Bool-cases (option_eq (some u) h.user_id)) [
  | inl mine ↦ simp mine (dispatch-call _ h.controller j)
  | inr other ↦ simp other refl
]
step-ring (user_removed u c) h j = elim (Bool-cases (is_removed u c h)) [
  | inl gone ↦ simp gone (ap (λ s. lookup j s.calls) (leave-calls h.controller))
  | inr stays ↦ simp stays refl
]
step-ring (seeded me) h j = seeded-call me h j
step-ring kills_ring h j = dispatch-call _ h.controller j
step-ring uninitialized h j = ap (λ s. lookup j s.calls) (leave-calls h.controller)
step-ring (happens (writes a)) h j = unfold Calls.step in (dispatch-call a h.controller j)
step-ring (happens e) h j = happens-call e h.controller j refl
