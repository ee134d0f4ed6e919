-- ===== src/Components/Notices.antt =====
-- The banner that shows a notice, with the timer that takes an information away again
-- (webapp/src/components/notice_banner/component.tsx).
pub mod Timed
use mattermost_plugin_openta.Base.{
  Bool, true, false, ◌&&◌, Option, none, some, List, [], ◌∷◌, nat_eq, option_eq, truthy_option,
  if◌then◌else◌,
}
use mattermost_plugin_openta.Store.Action.{NoticeKind, error, info, notice_cleared}
use mattermost_plugin_openta.Store.Notice.{NoticeState}
use mattermost_plugin_openta.Controller.State.{Controller, dispatch}
use mattermost_plugin_openta.Controller.Calls.{Happening}
use mattermost_plugin_openta.Controller.Calls

pub record Banner : Type 0 where
  pub controller : Controller
  -- the notice of the last effect, and its timer
  pub seen : NoticeState
  pub timer : Bool

abbrev pub is_info : NoticeKind → Bool
is_info info = true
is_info error = false

abbrev same_kind : NoticeKind → NoticeKind → Bool
same_kind info k = is_info k
same_kind error info = false
same_kind error error = true

-- None of the effect's dependencies has changed.
abbrev pub is_same : NoticeState → NoticeState → Bool
is_same n m = nat_eq n.seq m.seq && option_eq n.message m.message && same_kind n.kind m.kind

abbrev pub needs_timer : NoticeState → Bool
needs_timer n = truthy_option n.message && is_info n.kind

-- The effect after a render: a changed notice ends the timer of the one before.
abbrev pub render : Banner → Banner
render b =
    let notice = b.controller.root.notice in
    if is_same notice b.seen then b else record b { seen = notice; timer = needs_timer notice }

pub data BannerEvent : Type 0 where
  -- six seconds are over, or the user dismisses the notice
  fires dismisses : BannerEvent
  -- anything else that happens to the controller
  happens : Happening → BannerEvent

abbrev pub on_event : BannerEvent → Banner → Banner
on_event fires b =
    if b.timer
    then record b { timer = false; controller = dispatch notice_cleared b.controller }
    else b
on_event dismisses b =
    if truthy_option b.controller.root.notice.message
    then record b { controller = dispatch notice_cleared b.controller }
    else b
on_event (happens h) b = record b { controller = Calls.step h b.controller }

unfoldable pub step : BannerEvent → Banner → Banner
step e b = render (on_event e b)

unfoldable pub run : List BannerEvent → Banner → Banner
run [] b = b
run (e ∷ es) b = run es (step e b)

abbrev pub mount : Controller → Banner
mount w = record { controller = w; seen = w.root.notice; timer = needs_timer w.root.notice }
