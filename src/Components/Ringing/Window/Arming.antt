-- ===== src/Components/Ringing/Window/Arming.antt =====
-- What the timer's effect leaves.
use mattermost_plugin_openta.Base.{
  ℕ, ◌+◌, ◌-◌, ◌<◌, String, ◌≡◌, refl, sym, ◌∙◌, ap, ◌⊎◌, inl, inr, Bool, true, false, Option, none,
  some, arith, size, Bool-cases, leb,
}
use mattermost_plugin_openta.Store.Action.{IncomingCall, incoming_call_cleared}
use mattermost_plugin_openta.Store.Participants.{participants_reducer}
use mattermost_plugin_openta.Store.Session.{session_reducer}
use mattermost_plugin_openta.Store.Tracks.{tracks_reducer}
use mattermost_plugin_openta.Store.Notice.{notice_reducer, oauth_reducer}
use mattermost_plugin_openta.Store.Calls.{active_meetings_reducer}
use mattermost_plugin_openta.Store.Calls.Laws.{cleared-fewer}
use mattermost_plugin_openta.Store.Root.{root_reducer}
use mattermost_plugin_openta.Controller.State.{Controller, dispatch}
use mattermost_plugin_openta.Components.Ringing.{freshness, show_call}
use mattermost_plugin_openta.Components.Ringing.Window.{Window, watch, arm}
use mattermost_plugin_openta.Components.Ringing.Window.Effects.{calls_of, deadline_of, Kept}

-- After a call is cleared there is one less, or the store is what it was.
cleared-root :
    (id : String) (k : Controller)
    → (size (dispatch (incoming_call_cleared id) k).root.incoming_calls.calls
        < size k.root.incoming_calls.calls)
      ⊎ ((dispatch (incoming_call_cleared id) k).root ≡ k.root)
unfolding dispatch root_reducer participants_reducer session_reducer tracks_reducer notice_reducer
    oauth_reducer active_meetings_reducer
cleared-root id k = elim (cleared-fewer k.root.incoming_calls id) [
  | inl fewer ↦ inl fewer
  | inr same ↦ inr (ap (λ s. record k.root { incoming_calls = s }) same)
]

-- A stale call is cleared; another leaves the time until it is stale.
show_call-cases :
    (c : IncomingCall) (k : Controller)
    → (show_call c k ≡ (dispatch (incoming_call_cleared c.channel_id) k, none))
      ⊎ ((n : ℕ) × (k.now + n ≡ c.received_at + freshness) × (show_call c k ≡ (k, some n)))
unfolding show_call
show_call-cases c k = elim (Bool-cases (leb (c.received_at + freshness) k.now)) [
  | inl stale ↦ inl (rw stale refl)
  | inr fresh ↦ inr (c.received_at + freshness - k.now, ground arith, rw fresh refl)
]

-- What the timer's effect leaves.
pub record Armed (o : Option IncomingCall) (q : Window) (a : Window) (wrote : Bool) : Type 0 where
  pub kept : Kept a
  pub same_watched : a.watched ≡ watch o
  pub same_showing : a.showing ≡ q.showing
  pub same_key : a.key ≡ q.key
  pub quiet : wrote ≡ false → a.controller ≡ q.controller
  pub loud :
      wrote ≡ true
      → (size (calls_of a) < size (calls_of q)) ⊎ (a.controller.root ≡ q.controller.root)

pub arm-Armed : (o : Option IncomingCall) (q : Window) → Kept q → Armed o q (arm o q).0 (arm o q).1
unfolding arm deadline_of
arm-Armed none q h = record {
  kept = record {
    heard = h.heard;
    listens = h.listens;
    enabled = h.enabled;
    armed = λ due e. cc;
    owned = h.owned;
  };
  same_watched = refl;
  same_showing = refl;
  same_key = refl;
  quiet = λ e. refl;
  loud = λ e. cc;
}
arm-Armed (some c) q h = elim (show_call-cases c q.controller) [
  | inl stale ↦ rw stale (record {
    kept = record {
      heard = h.heard;
      listens = h.listens;
      enabled = h.enabled;
      armed = λ due e. cc;
      owned = h.owned;
    };
    same_watched = refl;
    same_showing = refl;
    same_key = refl;
    quiet = λ e. cc;
    loud = λ e. cleared-root c.channel_id q.controller;
  })
  | inr (n, adds, fresh) ↦ rw fresh (record {
    kept = record {
      heard = h.heard;
      listens = h.listens;
      enabled = h.enabled;
      armed = λ due e. ap some (sym adds) ∙ e;
      owned = h.owned;
    };
    same_watched = refl;
    same_showing = refl;
    same_key = refl;
    quiet = λ e. refl;
    loud = λ e. cc;
  })
]
