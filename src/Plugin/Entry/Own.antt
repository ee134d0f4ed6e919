-- ===== src/Plugin/Entry/Own.antt =====
-- No call of the user's own rings.
use mattermost_plugin_openta.Base.{
  String, ◌≡◌, refl, Bool, true, false, Option, none, some, List, [], ◌∷◌, ◌==◌, option_eq,
  if◌then◌else◌, arith, Bool-cases, Option-cases, inl, inr,
}
use mathlib.Core.Option
use mattermost_plugin_openta.Store.Action.{
  Action, IncomingCall, incoming_call_received, incoming_call_dismissed, incoming_call_cleared,
  incoming_calls_reset,
}
use mattermost_plugin_openta.Store.Calls.Laws.{call_step, dismissed_call}
use mattermost_plugin_openta.Controller.Calls.{writes}
use mattermost_plugin_openta.Plugin.Entry.{
  Host, MeetingMessage, MeResponse, is_ignored, is_removed, is_own_call, PluginEvent, meeting_ended,
  incoming_call, ring_setting_changed, incoming_call_dismissed, user_removed, seeded, kills_ring,
  happens, step, run, on_user_connected_state, on_meeting_ended, on_meeting_started,
  on_incoming_call, on_ring_setting_changed, on_incoming_call_dismissed, on_user_removed, on_seeded,
  kill_ring, uninitialize,
}
use mattermost_plugin_openta.Plugin.Entry.Rings.{ring, ring_step, step-ring}

abbrev is_own : (user_id : Option String) → Option IncomingCall → Bool
is_own user_id none = false
is_own user_id (some c) = is_own_call user_id c.host_user_id

-- No call of the user's own rings.
abbrev pub NoOwnRing : Host → Type 0
NoOwnRing h = (j : String) → is_own h.user_id (ring h j) ≡ false

-- Other code than the plugin's handlers makes no call ring.
abbrev pub rings_nothing : PluginEvent → Bool
rings_nothing (happens (writes (incoming_call_received c))) = false
rings_nothing _ = true

abbrev pub AllRingNothing : List PluginEvent → Type 0
AllRingNothing [] = Unit
AllRingNothing (e ∷ es) = (rings_nothing e ≡ true) × AllRingNothing es

seeded-user : (me : Option MeResponse) (h : Host) → (on_seeded me h).user_id ≡ h.user_id
unfolding on_seeded
seeded-user none h = refl
seeded-user (some me) h = elim (Option-cases me.ringtone_enabled) [
  | inl unset ↦ simp unset refl
  | inr (b, set) ↦ simp set refl
]

step-user : (e : PluginEvent) (h : Host) → (step e h).user_id ≡ h.user_id
unfolding step on_user_connected_state on_meeting_ended on_meeting_started on_incoming_call
    on_ring_setting_changed on_incoming_call_dismissed on_user_removed kill_ring uninitialize
step-user (incoming_call m) h = elim (Bool-cases (is_ignored m h)) [
  | inl ignored ↦ simp ignored refl
  | inr rings ↦ simp rings refl
]
step-user (ring_setting_changed u b) h = elim (Bool-cases (option_eq (some u) h.user_id)) [
  | inl mine ↦ simp mine refl
  | inr other ↦ simp other refl
]
step-user (incoming_call_dismissed id u) h = elim (Bool-cases (option_eq (some u) h.user_id)) [
  | inl mine ↦ simp mine refl
  | inr other ↦ simp other refl
]
step-user (user_removed u c) h = elim (Bool-cases (is_removed u c h)) [
  | inl gone ↦ simp gone refl
  | inr stays ↦ simp stays refl
]
step-user (seeded me) h = seeded-user me h
step-user _ h = refl

not_own :
    (m : MeetingMessage) (h : Host)
    → is_ignored m h ≡ false
    → is_own_call h.user_id m.host_user_id ≡ false
not_own m h i = ground arith

cleared_own :
    (u : Option String) (b : Bool) (o : Option IncomingCall)
    → is_own u o ≡ false
    → is_own u (if b then none else o) ≡ false
cleared_own u true o v = refl
cleared_own u false o v = v

dismissed_own :
    (u : Option String) (b : Bool) (o : Option IncomingCall)
    → is_own u o ≡ false
    → is_own u (if b then Option.map dismissed_call o else o) ≡ false
dismissed_own u true none v = refl
dismissed_own u true (some c) v = v
dismissed_own u false o v = v

write-own :
    (a : Action) (h : Host) (j : String)
    → rings_nothing (happens (writes a)) ≡ true
    → is_own h.user_id (ring h j) ≡ false
    → is_own h.user_id (call_step (ring h) a j) ≡ false
write-own (incoming_call_received d) h j r v = cc
write-own (Action.incoming_call_dismissed id) h j r v =
    dismissed_own h.user_id (id == j) (ring h j) v
write-own (incoming_call_cleared id) h j r v = cleared_own h.user_id (id == j) (ring h j) v
write-own incoming_calls_reset h j r v = refl
write-own _ h j r v = v

message-own :
    (m : MeetingMessage) (h : Host) (j : String)
    → is_own h.user_id (ring h j) ≡ false
    → is_own h.user_id (ring_step h (incoming_call m) j) ≡ false
message-own m h j v = elim (Bool-cases (is_ignored m h)) [
  | inl ignored ↦ simp ignored v
  | inr rings ↦ elim (Bool-cases (m.channel_id == j)) [
    | inl here ↦ simp (rings, here) (not_own m h rings)
    | inr other ↦ simp (rings, other) v
  ]
]

ring_step-own :
    (e : PluginEvent) (h : Host) (j : String)
    → rings_nothing e ≡ true
    → is_own h.user_id (ring h j) ≡ false
    → is_own h.user_id (ring_step h e j) ≡ false
ring_step-own (meeting_ended id) h j r v = cleared_own h.user_id (id == j) (ring h j) v
ring_step-own (incoming_call m) h j r v = message-own m h j v
ring_step-own (incoming_call_dismissed id u) h j r v =
    elim (Bool-cases (option_eq (some u) h.user_id)) [
      | inl mine ↦ simp mine (cleared_own h.user_id (id == j) (ring h j) v)
      | inr other ↦ simp other v
    ]
ring_step-own kills_ring h j r v = refl
ring_step-own (happens (writes a)) h j r v = write-own a h j r v
ring_step-own _ h j r v = v

step-own :
    (e : PluginEvent) (h : Host) → rings_nothing e ≡ true → NoOwnRing h → NoOwnRing (step e h)
step-own e h r v = λ j. rw (step-user e h, step-ring e h j) (ring_step-own e h j r (v j))

-- Where no incoming call is the user's own, none is after any events of the plugin, as long as no other
-- code than its handlers makes a call ring.
pub run-NoOwnRing :
    (es : List PluginEvent) (h : Host) → AllRingNothing es → NoOwnRing h → NoOwnRing (run es h)
unfolding run
run-NoOwnRing [] h r v = v
run-NoOwnRing (e ∷ es) h r v = run-NoOwnRing es (step e h) r.1 (step-own e h r.0 v)
