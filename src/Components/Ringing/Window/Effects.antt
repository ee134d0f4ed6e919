-- ===== src/Components/Ringing/Window/Effects.antt =====
-- What one round of the window's effects leaves.
use mattermost_plugin_openta.Base.{
  ℕ, ◌+◌, String, ◌≡◌, refl, sym, ◌∙◌, ap, inl, inr, true, false, Option, none, some, Dict, is_some,
  option_eq, eq_iff, arith, Bool-cases,
}
use mattermost_plugin_openta.Store.Action.{IncomingCall}
use mattermost_plugin_openta.Plugin.Ringtone.{read_ringtone}
use mattermost_plugin_openta.Plugin.Ringtone.Laws.{read-read}
use mattermost_plugin_openta.Components.Ringing.{freshness, shown_incoming}
use mattermost_plugin_openta.Components.Ringing.Window.{
  Watch, Window, shown_of, key_of, reset_buttons, start_ring, stop_ring, ring_effect, watch,
  is_same,
}

abbrev pub calls_of : Window → Dict IncomingCall
calls_of w = w.controller.root.incoming_calls.calls

option_eq_refl : (o : Option String) → option_eq o o ≡ true
option_eq_refl none = refl
option_eq_refl (some s) = (eq_iff s s).1 refl

pub is_same_refl : (w : Watch) → is_same w w ≡ true
is_same_refl none = refl
is_same_refl (some (i, n)) = ground (arith, eq_iff i i)

unfoldable pub deadline_of : Watch → Option ℕ
deadline_of none = none
deadline_of (some (i, n)) = some (n + freshness)

pub is_same-deadline : (v w : Watch) → is_same v w ≡ true → deadline_of v ≡ deadline_of w
unfolding deadline_of
is_same-deadline none none h = refl
is_same-deadline none (some b) h = cc
is_same-deadline (some a) none h = cc
is_same-deadline (some (i, m)) (some (j, n)) h = ground arith

-- Nothing is left over: the sound is heard by an effect that shows a call and may ring, the timer is
-- due when the watched call gets stale, and disabled buttons are those of a call.
pub record Kept (w : Window) : Type 0 where
  pub heard : w.sound ≡ true → w.listening ≡ true
  pub listens : w.listening ≡ true → w.showing ≡ true
  pub enabled : w.sound ≡ true → (read_ringtone w.storage).1 ≡ true
  pub armed : (due : ℕ) → w.timer ≡ some due → deadline_of w.watched ≡ some due
  pub owned : w.busy ≡ true → is_some w.key ≡ true

-- What the effects left is up to date with the store.
pub record Done (w : Window) : Type 0 where
  pub current : is_same (watch (shown_of w)) w.watched ≡ true
  pub shows : w.showing ≡ is_some (shown_of w)
  pub keyed : option_eq (key_of (shown_of w)) w.key ≡ true

reset-Kept : (w : Window) → Kept w → Kept (reset_buttons w)
unfolding reset_buttons
reset-Kept w h = elim (Bool-cases (option_eq (key_of (shown_of w)) w.key)) [
  | inl same ↦ rw same h
  | inr other ↦ rw other (record {
    heard = h.heard;
    listens = h.listens;
    enabled = h.enabled;
    armed = h.armed;
    owned = λ b. cc;
  })
]

-- What the first two effects leave of a window.
record Rendered (w q : Window) : Type 0 where
  same_controller : q.controller ≡ w.controller
  same_watched : q.watched ≡ w.watched
  same_key : q.key ≡ w.key

reset-keyed : (w : Window) → option_eq (key_of (shown_of w)) (reset_buttons w).key ≡ true
unfolding reset_buttons
reset-keyed w = elim (Bool-cases (option_eq (key_of (shown_of w)) w.key)) [
  | inl same ↦ simp same refl
  | inr other ↦ rw other (option_eq_refl (key_of (shown_of w)))
]

pub reset-controller : (w : Window) → (reset_buttons w).controller ≡ w.controller
unfolding reset_buttons
reset-controller w = ground arith

reset-watched : (w : Window) → (reset_buttons w).watched ≡ w.watched
unfolding reset_buttons
reset-watched w = ground arith

ring-Rendered : (w : Window) → Rendered w (ring_effect w)
unfolding ring_effect
ring-Rendered w = record {
  same_controller = ground arith;
  same_watched = ground arith;
  same_key = ground arith;
}

ring-shows : (w : Window) → (ring_effect w).showing ≡ is_some (shown_of w)
unfolding ring_effect
ring-shows w = ground arith

-- Without a call nothing was heard.
start-Kept : (w : Window) → Kept w → w.showing ≡ false → Kept (start_ring w)
start-Kept w h idle = elim (Bool-cases (read_ringtone w.storage).1) [
  | inl on ↦ rw on (record {
    heard = λ s. refl;
    listens = λ l. refl;
    enabled = λ s. ap (λ p. p.1) (read-read w.storage) ∙ on;
    armed = h.armed;
    owned = h.owned;
  })
  | inr off ↦ rw off (record {
    heard = h.heard;
    listens = λ l. refl;
    enabled = λ s. let shows = h.listens (h.heard s) in cc;
    armed = h.armed;
    owned = h.owned;
  })
]

stop-Kept : (w : Window) → Kept w → Kept (stop_ring w)
stop-Kept w h = elim (Bool-cases w.listening) [
  | inl on ↦ rw on (record {
    heard = λ s. s;
    listens = λ l. l;
    enabled = λ s. cc;
    armed = h.armed;
    owned = h.owned;
  })
  | inr off ↦ rw off (record {
    heard = λ s. sym off ∙ h.heard s;
    listens = λ l. cc;
    enabled = h.enabled;
    armed = h.armed;
    owned = h.owned;
  })
]

ring-Kept : (w : Window) → Kept w → Kept (ring_effect w)
unfolding ring_effect
ring-Kept w h = elim (Bool-cases (is_some (shown_of w))) [
  | inl call ↦ elim (Bool-cases w.showing) [
    | inl shown ↦ simp (call, shown) h
    | inr hidden ↦ simp (call, hidden) (start-Kept w h hidden)
  ]
  | inr no_call ↦ elim (Bool-cases w.showing) [
    | inl shown ↦ simp (no_call, shown) (stop-Kept w h)
    | inr hidden ↦ simp (no_call, hidden) h
  ]
]

abbrev pub effects : Window → Window
effects w = ring_effect (reset_buttons w)

pub effects-Kept : (w : Window) → Kept w → Kept (effects w)
effects-Kept w h = ring-Kept (reset_buttons w) (reset-Kept w h)

-- The first two effects write nothing to the store.
pub record Effective (w q : Window) : Type 0 where
  pub same_controller : q.controller ≡ w.controller
  pub same_watched : q.watched ≡ w.watched
  pub shows : q.showing ≡ is_some (shown_of w)
  pub keyed : option_eq (key_of (shown_of w)) q.key ≡ true

pub effects-Effective : (w : Window) → Effective w (effects w)
effects-Effective w =
    let r = ring-Rendered (reset_buttons w) in
    record {
      same_controller = r.same_controller ∙ reset-controller w;
      same_watched = r.same_watched ∙ reset-watched w;
      shows =
          ring-shows (reset_buttons w)
          ∙ ap (λ k. is_some (shown_incoming k.root)) (reset-controller w);
      keyed = ap (option_eq (key_of (shown_of w))) r.same_key ∙ reset-keyed w;
    }

-- Where the timer's effect has nothing to do, all is up to date.
pub same-Done : (w : Window) → is_same (watch (shown_of w)) w.watched ≡ true → Done (effects w)
same-Done w same =
    let e = effects-Effective w in
    record {
      current = rw (e.same_controller, e.same_watched) same;
      shows = rw e.same_controller e.shows;
      keyed = rw e.same_controller e.keyed;
    }
