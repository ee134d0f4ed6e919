-- ===== src/Controller/Apart.antt =====
-- The controller writes only to the slices of the call: rings, announced meetings and the account are
-- the plugin's.
pub mod Steps
use mattermost_plugin_openta.Base.{
  ℕ, String, ◌≡◌, refl, Bool, true, false, Option, none, some, List, [], ◌∷◌, if◌then◌else◌,
  Bool-cases, inl, inr, arith, ◌∙◌, is_some,
}
use mattermost_plugin_openta.Store.Action.{Action, set_reconnect_attempt}
use mattermost_plugin_openta.Store.Calls.{active_meetings_reducer, incoming_calls_reducer}
use mattermost_plugin_openta.Store.Notice.{oauth_reducer}
use mattermost_plugin_openta.Store.Root.{RootState, root_reducer}
use mattermost_plugin_openta.Signaling.RoomState.{JoinFailure}
use mattermost_plugin_openta.Controller.State.{
  Controller, Place, PendingRejoin, Continuation, proceed, establish, report_failure, report_error,
  report_closed, end_meeting, Teardown, dispatch, tear_down, tear_down_with, wait_for, forget_call,
  stop_media, teardown_ends, end_teardown, enqueue, teardown_actions, dispatch_all,
}
use mattermost_plugin_openta.Controller.Join.{
  attempt_result, attempt_terminal, establish_conference, proceed_with, run_proceed,
  rejoin_after_drop, timer_fires, start_conference_connection, dispatch_connect_error,
  join_succeeds, join_fails, after_failure, rejoin_result, next_attempt, give_up, fire,
}
use mattermost_plugin_openta.Controller.Events.{
  on_connected, on_livekit_credentials, on_closed, on_error, on_livekit_disconnected,
  on_livekit_failed, bring_up_livekit, bring_up_inlined,
}
use mattermost_plugin_openta.Controller.Calls.{
  Happening, starts, leaves, ends, join_ok, join_bad, client_connected, client_credentials,
  client_closed, client_error, media_dropped, media_failed, end_failed, on_end_failed, torn_down,
  runs, timer, writes, step, leave_with, leave_active_conference, end_active_meeting, continue_with,
  run_next, end_on, reset_reconnect, debrief,
}
use mattermost_plugin_openta.Controller.Handlers.{IsClosed, is_own, is_local}
use mattermost_plugin_openta.Controller.Handlers.Steps.{step-local}
use mattermost_plugin_openta.Controller.Handlers.Toggles.{either}

-- The slices of the plugin itself are those of another state.
pub record SamePlugin (r s : RootState) : Type 0 where
  pub calls : s.incoming_calls ≡ r.incoming_calls
  pub meetings : s.active_meetings ≡ r.active_meetings
  pub account : s.oauth ≡ r.oauth

own-SamePlugin :
    (now : ℕ) (r s : RootState) (a : Action)
    → is_own a ≡ true
    → SamePlugin r s
    → SamePlugin r (root_reducer now s a)
unfolding root_reducer active_meetings_reducer incoming_calls_reducer oauth_reducer
own-SamePlugin now r s a h p = ground arith

module _ (r : RootState) where
  unfoldable pub Kept : Controller → Type 0
  Kept w = SamePlugin r w.root

  pub written : (a : Action) (w : Controller) → is_own a ≡ true → Kept w → Kept (dispatch a w)
  unfolding dispatch Kept
  written a w h p = own-SamePlugin w.now r w.root a h p

  pub Kept-IsClosed : IsClosed Kept
  unfolding Kept
  Kept-IsClosed = record {
    writes = written;
    keeps = λ ids mic cam screen restore w p. p;
    asks = λ o w h p. p;
  }

  pub choice : (b : Bool) (x y : Controller) → Kept x → Kept y → Kept (if b then x else y)
  choice b x y p q = either Kept Kept-IsClosed b x y p q

  forgotten : (w : Controller) → Kept w → Kept (forget_call w)
  forgotten w p =
      choice w.has_store _ w
        (written _ _ refl (
          written _ _ refl (
            written _ _ refl
              (written _ _ refl (written _ _ refl (written _ _ refl (written _ w refl p)))))))
        p

  pub waited :
      (lk k : Option ℕ) (ks : List Continuation) (w : Controller)
      → Kept w
      → Kept (wait_for lk k ks w)
  unfolding wait_for Kept
  waited (some lk) k ks w p = p
  waited none (some k) ks w p = p
  waited none none ks w p = p

  torn_with :
      (o : Option Teardown) (ks : List Continuation) (w : Controller)
      → Kept w
      → Kept (tear_down_with o ks w)
  unfolding Kept
  torn_with (some t) ks w p = p
  torn_with none ks w p = waited _ _ ks _ (forgotten (stop_media w) p)

  pub torn : (ks : List Continuation) (w : Controller) → Kept w → Kept (tear_down ks w)
  unfolding tear_down
  torn ks w p = torn_with w.tearing_down ks w p

  gave_up : (message : String) (w : Controller) → Kept w → Kept (give_up message w)
  unfolding Kept
  gave_up message w p = written _ _ refl (written _ _ refl p)

  next_kept : (b : Bool) (q : PendingRejoin) (w : Controller) → Kept w → Kept (next_attempt b q w)
  unfolding Kept
  next_kept true q w p = p
  next_kept false q w p = choice _ _ _ (gave_up _ w p) p

  pub result_kept :
      (o : Option ℕ) (b : Bool) (w : Controller) → Kept w → Kept (attempt_result o b w)
  unfolding attempt_result
  result_kept none b w p = p
  result_kept (some id) b w p = go w.rejoin
    where
      go : (q : Option PendingRejoin) → Kept (rejoin_result q id b w)
      go none = p
      go (some q) = choice _ _ w (next_kept b q w p) p

  terminal_kept : (o : Option ℕ) (w : Controller) → Kept w → Kept (attempt_terminal o w)
  unfolding attempt_terminal
  terminal_kept none w p = written _ w refl p
  terminal_kept (some id) w p = choice _ _ w (gave_up _ w p) p

  pub established :
      (place : Place) (o : Option ℕ) (b : Bool) (w : Controller)
      → Kept w
      → Kept (establish_conference place o b w)
  unfolding establish_conference Kept
  established place o b w p = choice _ _ _ (result_kept o false w p) (written _ _ refl p)

  pub proceeded : (id : ℕ) (w : Controller) → Kept w → Kept (run_proceed id w)
  unfolding run_proceed Kept
  proceeded id w p = go w.rejoin
    where
      go : (q : Option PendingRejoin) → Kept (proceed_with q id w)
      go none = p
      go (some q) = choice _ _ w (established _ _ _ _ (written _ _ refl p)) p

  pub rejoined : (k : ℕ) (w : Controller) → Kept w → Kept (rejoin_after_drop k w)
  unfolding rejoin_after_drop Kept
  rejoined k w p = torn _ _ p

  pub reported :
      (k : ℕ) (message : String) (w : Controller)
      → Kept w
      → Kept (dispatch_connect_error k message w)
  unfolding dispatch_connect_error Kept
  reported k message w p =
      let q = written _ _ refl p in choice _ w _ p (choice _ _ _ (written _ _ refl q) q)

  pub failed :
      (k : ℕ) (f : JoinFailure) (message : String) (w : Controller)
      → Kept w
      → Kept (after_failure k f message w)
  unfolding after_failure
  failed k f message w p =
      choice _ _ _ (result_kept _ false w p)
        (choice _ _ _ (terminal_kept _ w p) (result_kept _ false _ (reported k message w p)))

  pub left_kept : (ks : List Continuation) (w : Controller) → Kept w → Kept (leave_with ks w)
  unfolding leave_with Kept
  left_kept ks w p = torn ks _ (choice w.has_store _ _ (written _ _ refl p) p)
