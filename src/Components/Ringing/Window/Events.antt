-- ===== src/Components/Ringing/Window/Events.antt =====
-- What each event of the window keeps.
use mattermost_plugin_openta.Base.{
  ℕ, ◌&&◌, ◌||◌, not, ◌+◌, String, ◌≡◌, refl, sym, ◌∙◌, ap, inl, inr, Bool, true, false, Option,
  none, some, is_some, option_eq, Bool-cases, if◌then◌else◌, leb, Storage,
}
use mattermost_plugin_openta.Store.Action.{IncomingCall}
use mattermost_plugin_openta.Controller.State.{Controller}
use mattermost_plugin_openta.Controller.Calls
use mattermost_plugin_openta.Plugin.Ringtone.{read_ringtone}
use mattermost_plugin_openta.Plugin.Ringtone.Laws.{read-read}
use mattermost_plugin_openta.Components.Ringing.{
  latest_call, decline, declined, accept, accepted, is_idle,
}
use mattermost_plugin_openta.Components.Ringing.Window.{
  Window, shown_of, key_of, watch, on_decline, on_accept, fire, WindowEvent, declines, accepts,
  dismissed, clears, started, fires, waits, setting_changes, happens, hear, can_click, on_event,
}
use mattermost_plugin_openta.Components.Ringing.Window.Effects.{deadline_of, is_same-deadline, Kept}
use mattermost_plugin_openta.Components.Ringing.Window.Settled.{IsSettled}

pub key-owned :
    (o : Option IncomingCall) (key : Option String)
    → option_eq (key_of o) key ≡ true
    → is_some o ≡ is_some key
key-owned none none h = refl
key-owned none (some k) h = cc
key-owned (some c) none h = cc
key-owned (some c) (some k) h = refl

has_key : (w : Window) → IsSettled w → is_some (shown_of w) ≡ true → is_some w.key ≡ true
has_key w s shown = sym (key-owned (shown_of w) w.key s.done.keyed) ∙ shown

watched-shown :
    (o : Option IncomingCall) (due : ℕ) → deadline_of (watch o) ≡ some due → is_some o ≡ true
unfolding deadline_of
watched-shown none due h = cc
watched-shown (some c) due h = refl

-- A timer that is armed is that of the shown call.
pub timed-shown :
    (w : Window) (due : ℕ)
    → IsSettled w
    → w.timer ≡ some due
    → deadline_of (watch (shown_of w)) ≡ some due
timed-shown w due s h =
    is_same-deadline (watch (shown_of w)) w.watched s.done.current ∙ s.kept.armed due h

-- A call is declined or accepted.
and_left : (a b : Bool) → (a && b) ≡ true → a ≡ true
and_left true b h = refl
and_left false b h = cc

and_right : (a b : Bool) → (a && b) ≡ true → b ≡ true
and_right true b h = h
and_right false b h = cc

-- A call is declined or accepted.
pressed-Kept :
    (w : Window) (k : Controller)
    → Kept w
    → is_some w.key ≡ true
    → Kept (record w { busy = true; sound = false; controller = k })
pressed-Kept w k h owned = record {
  heard = λ e. cc;
  listens = h.listens;
  enabled = λ e. cc;
  armed = h.armed;
  owned = λ e. owned;
}

on_decline-Kept :
    (o : Option IncomingCall) (w : Window) → Kept w → is_some w.key ≡ true → Kept (on_decline o w)
on_decline-Kept none w h owned = h
on_decline-Kept (some c) w h owned = pressed-Kept w (decline c w.controller) h owned

on_accept-Kept :
    (o : Option IncomingCall) (display_name : String) (w : Window)
    → Kept w
    → is_some w.key ≡ true
    → Kept (on_accept o display_name w)
on_accept-Kept none display_name w h owned = h
on_accept-Kept (some c) display_name w h owned =
    pressed-Kept w (accept c display_name w.controller) h owned

-- A change of nothing but the controller.
moved-Kept : (w : Window) (k : Controller) → Kept w → Kept (record w { controller = k })
moved-Kept w k h = record {
  heard = h.heard;
  listens = h.listens;
  enabled = h.enabled;
  armed = h.armed;
  owned = h.owned;
}

enabled-Kept : (w : Window) → Kept w → Kept (record w { busy = false })
enabled-Kept w h = record {
  heard = h.heard;
  listens = h.listens;
  enabled = h.enabled;
  armed = h.armed;
  owned = λ e. cc;
}

stopped-Kept : (w : Window) → Kept w → Kept (record w { timer = none })
stopped-Kept w h = record {
  heard = h.heard;
  listens = h.listens;
  enabled = h.enabled;
  armed = λ due e. cc;
  owned = h.owned;
}

hear-Kept : (w : Window) (s : Storage) → Kept w → Kept (hear (record w { storage = s }))
hear-Kept w s h = elim (Bool-cases w.listening) [
  | inl on ↦ rw on (record {
    heard = λ e. refl;
    listens = λ e. h.listens on;
    enabled = λ e. ap (λ p. p.1) (read-read s) ∙ and_right w.sound (read_ringtone s).1 e;
    armed = h.armed;
    owned = h.owned;
  })
  | inr off ↦ rw off (record {
    heard = λ e. sym off ∙ h.heard e;
    listens = λ e. cc;
    enabled = λ e. let heard = h.heard e in cc;
    armed = h.armed;
    owned = h.owned;
  })
]

if-Kept : (b : Bool) (p q : Window) → Kept p → Kept q → Kept (if b then p else q)
if-Kept true p q h k = h
if-Kept false p q h k = k

clicked-Kept :
    (by_key : Bool) (p w : Window)
    → IsSettled w
    → (is_some w.key ≡ true → Kept p)
    → Kept (if can_click by_key w then p else w)
clicked-Kept by_key p w s h = elim (Bool-cases (can_click by_key w)) [
  | inl can ↦
      simp can (h (has_key w s (and_left (is_some (shown_of w)) (by_key || not w.busy) can)))
  | inr cannot ↦ simp cannot s.kept
]

fire-Kept : (t : Option ℕ) (w : Window) → IsSettled w → w.timer ≡ t → Kept (fire t w)
fire-Kept none w s h = s.kept
fire-Kept (some due) w s h =
    let shown = watched-shown (shown_of w) due (timed-shown w due s h) in
    if-Kept (leb due w.controller.now)
      (on_decline (latest_call w.controller.root) (record w { timer = none })) w
      (on_decline-Kept (latest_call w.controller.root) (record w { timer = none })
        (stopped-Kept w s.kept) (has_key w s shown))
      s.kept

pub on_event-Kept : (e : WindowEvent) (w : Window) → IsSettled w → Kept (on_event e w)
on_event-Kept (declines by_key) w s =
    let o = latest_call w.controller.root in
    clicked-Kept by_key (on_decline o w) w s (on_decline-Kept o w s.kept)
on_event-Kept (accepts by_key display_name) w s =
    let o = latest_call w.controller.root in
    clicked-Kept by_key (on_accept o display_name w) w s (on_accept-Kept o display_name w s.kept)
on_event-Kept (dismissed worked) w s =
    if-Kept worked w (record w { busy = false }) s.kept (enabled-Kept w s.kept)
on_event-Kept (clears c) w s = moved-Kept w (declined c w.controller) s.kept
on_event-Kept (started c) w s =
    if-Kept (is_idle w.controller.root.session.status) (record w { busy = false })
      (record w { controller = accepted c w.controller }) (enabled-Kept w s.kept)
      (moved-Kept w (accepted c w.controller) s.kept)
on_event-Kept fires w s = fire-Kept w.timer w s refl
on_event-Kept (waits n) w s =
    moved-Kept w (record w.controller { now = w.controller.now + n }) s.kept
on_event-Kept (setting_changes storage) w s = hear-Kept w storage s.kept
on_event-Kept (happens h) w s = moved-Kept w (Calls.step h w.controller) s.kept
