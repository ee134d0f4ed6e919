-- ===== src/Components/Ringing/Window/Settled.antt =====
-- The effects of the window come to an end, and what they leave belongs to the call that is shown.
use mattermost_plugin_openta.Base.{
  ℕ, zero, suc, ◌<◌, ◌≡◌, ◌∙◌, ap, inl, inr, Bool, true, false, option_eq, arith, size, Bool-cases,
}
use mattermost_plugin_openta.Components.Ringing.Window.{
  Window, shown_of, key_of, watch, is_same, arm, render, renders,
}
use mattermost_plugin_openta.Components.Ringing.Window.Arming.{Armed, arm-Armed}
use mattermost_plugin_openta.Components.Ringing.Window.Effects.{
  calls_of, is_same_refl, Kept, Done, effects, effects-Kept, effects-Effective, same-Done,
}

-- After the effects.
pub record IsSettled (w : Window) : Type 0 where
  pub kept : Kept w
  pub done : Done w

same-IsSettled :
    (w : Window) → Kept w → is_same (watch (shown_of w)) w.watched ≡ true → IsSettled (effects w)
same-IsSettled w h same = record { kept = effects-Kept w h; done = same-Done w same }

-- An effect that wrote nothing.
quiet-IsSettled :
    (w a : Window) (b : Bool) → Armed (shown_of w) (effects w) a b → b ≡ false → IsSettled a
quiet-IsSettled w a b r quiet =
    let e = effects-Effective w in
    let controller = r.quiet quiet ∙ e.same_controller in
    record {
      kept = r.kept;
      done = record {
        current = rw (controller, r.same_watched) (is_same_refl (watch (shown_of w)));
        shows = rw controller (r.same_showing ∙ e.shows);
        keyed = rw controller (ap (option_eq (key_of (shown_of w))) r.same_key ∙ e.keyed);
      };
    }

-- One that wrote to the store and changed nothing: the next round is the last.
loud-IsSettled :
    (n : ℕ) (w a : Window) (b : Bool)
    → Armed (shown_of w) (effects w) a b
    → a.controller.root ≡ (effects w).controller.root
    → IsSettled (render (suc n) a)
unfolding render
loud-IsSettled n w a b r same =
    let e = effects-Effective w in
    let root = same ∙ ap (λ k. k.root) e.same_controller in
    let idle : is_same (watch (shown_of a)) a.watched ≡ true =
      rw (root, r.same_watched) (is_same_refl (watch (shown_of w))) in
    rw idle (same-IsSettled a r.kept idle)

-- The rounds of effects end before the fuel does.
render-IsSettled :
    (n : ℕ) (w : Window) → Kept w → suc (size (calls_of w)) < n → IsSettled (render n w)
unfolding render
render-IsSettled zero w h more = absurd (omega (arith, more))
render-IsSettled (suc zero) w h more = absurd (omega (arith, more))
render-IsSettled (suc (suc n)) w h more =
    let q = effects w in
    let o = shown_of w in
    let r = arm-Armed o q (effects-Kept w h) in
    let same_size =
      ap (λ k. size k.root.incoming_calls.calls) (effects-Effective w).same_controller in
    elim (Bool-cases (is_same (watch o) w.watched)) [
      | inl same ↦ rw same (same-IsSettled w h same)
      | inr other ↦ elim (Bool-cases (arm o q).1) [
        | inr quiet ↦ simp (other, quiet) (quiet-IsSettled w (arm o q).0 (arm o q).1 r quiet)
        | inl loud ↦ elim (r.loud loud) [
          | inl fewer ↦
              simp (other, loud)
                (render-IsSettled (suc n) (arm o q).0 r.kept
                  (omega (arith, fewer, same_size, more)))
          | inr same ↦ simp (other, loud) (loud-IsSettled n w (arm o q).0 (arm o q).1 r same)
        ]
      ]
    ]

pub renders-IsSettled : (w : Window) → Kept w → IsSettled (renders w)
unfolding renders
renders-IsSettled w h = render-IsSettled (suc (suc (size (calls_of w)))) w h (omega arith)
