-- ===== src/Components/Notices/Timed.antt =====
-- A timer runs only for an information.
use mattermost_plugin_openta.Base.{
  ◌≡◌, refl, true, false, Option, none, some, List, [], ◌∷◌, arith, option_eq, truthy_option,
  eq_iff, Bool-cases, inl, inr, String, ◌∙◌, sym, ap, truthy,
}
use mattermost_plugin_openta.Store.Action.{NoticeKind, error, info}
use mattermost_plugin_openta.Store.Notice.{NoticeState}
use mattermost_plugin_openta.Controller.State.{Controller}
use mattermost_plugin_openta.Components.Notices.{
  Banner, BannerEvent, fires, dismisses, happens, is_same, same_kind, is_info, needs_timer, render,
  on_event, step, run, mount,
}

-- The timer that runs, if any, is for the notice that the banner shows, and that is an information.
pub record IsTimed (b : Banner) : Type 0 where
  pub current : is_same b.controller.root.notice b.seen ≡ true
  pub for_info : b.timer ≡ true → needs_timer b.controller.root.notice ≡ true

option_eq_refl : (o : Option String) → option_eq o o ≡ true
option_eq_refl none = refl
option_eq_refl (some s) = (eq_iff s s).1 refl

same_kind_refl : (k : NoticeKind) → same_kind k k ≡ true
same_kind_refl info = refl
same_kind_refl error = refl

is_same_refl : (n : NoticeState) → is_same n n ≡ true
is_same_refl n = ground (arith, option_eq_refl n.message, same_kind_refl n.kind)

option_eq-truthy : (o q : Option String) → option_eq o q ≡ true → truthy_option o ≡ truthy_option q
option_eq-truthy none none h = refl
option_eq-truthy none (some s) h = cc
option_eq-truthy (some s) none h = cc
option_eq-truthy (some s) (some t) h = ap truthy ((eq_iff s t).0 h)

same_kind-info : (k l : NoticeKind) → same_kind k l ≡ true → is_info k ≡ is_info l
same_kind-info info info h = refl
same_kind-info info error h = cc
same_kind-info error error h = refl
same_kind-info error info h = cc

needs-same : (n m : NoticeState) → is_same n m ≡ true → needs_timer n ≡ needs_timer m
needs-same n m h =
    ground (arith, option_eq-truthy n.message m.message, same_kind-info n.kind m.kind)

-- Before the effect: a timer that runs is for the notice of the last one.
abbrev Armed : Banner → Type 0
Armed b = b.timer ≡ true → needs_timer b.seen ≡ true

render-IsTimed : (b : Banner) → Armed b → IsTimed (render b)
render-IsTimed b h = elim (Bool-cases (is_same b.controller.root.notice b.seen)) [
  | inl same ↦ rw same (record {
    current = same;
    for_info = λ t. needs-same b.controller.root.notice b.seen same ∙ h t;
  })
  | inr other ↦
      rw other (record { current = is_same_refl b.controller.root.notice; for_info = λ t. t })
]

IsTimed-Armed : (b : Banner) → IsTimed b → Armed b
IsTimed-Armed b v t = sym (needs-same b.controller.root.notice b.seen v.current) ∙ v.for_info t

on_event-Armed : (e : BannerEvent) (b : Banner) → IsTimed b → Armed (on_event e b)
on_event-Armed fires b v = ground (arith, IsTimed-Armed b v)
on_event-Armed dismisses b v = ground (arith, IsTimed-Armed b v)
on_event-Armed (happens h) b v = IsTimed-Armed b v

run-IsTimed : (es : List BannerEvent) (b : Banner) → IsTimed b → IsTimed (run es b)
unfolding run step
run-IsTimed [] b v = v
run-IsTimed (e ∷ es) b v =
    run-IsTimed es (step e b) (render-IsTimed (on_event e b) (on_event-Armed e b v))

mount-IsTimed : (w : Controller) → IsTimed (mount w)
mount-IsTimed w = record { current = is_same_refl w.root.notice; for_info = λ t. t }

-- The timer leaves a notice that is not an information.
fires_inert :
    (b : Banner) → IsTimed b → is_info b.controller.root.notice.kind ≡ false → step fires b ≡ b
unfolding step
fires_inert b v k = elim (Bool-cases b.timer) [
  | inl runs ↦ let n = v.for_info runs in ground (arith, n)
  | inr idle ↦ rw (idle, v.current)
]

-- After any events from a mount, whatever notices are set, replaced and dismissed, the timer leaves an
-- error as it is: it changes nothing.
pub run-fires :
    (es : List BannerEvent) (w : Controller)
    → is_info (run es (mount w)).controller.root.notice.kind ≡ false
    → step fires (run es (mount w)) ≡ run es (mount w)
run-fires es w k = fires_inert (run es (mount w)) (run-IsTimed es (mount w) (mount-IsTimed w)) k
