-- ===== src/Controller/Apart/Steps.antt =====
-- No happening of the controller touches the plugin's slices.
use mattermost_plugin_openta.Base.{
  ℕ, String, ◌≡◌, refl, Bool, true, false, Option, none, some, List, [], ◌∷◌, Bool-cases, inl, inr,
  is_some, truthy,
}
use mattermost_plugin_openta.Store.Action.{set_reconnect_attempt, set_livekit_connected}
use mattermost_plugin_openta.Store.Root.{RootState}
use mattermost_plugin_openta.Signaling.RoomState.{Participant, Credentials}
use mattermost_plugin_openta.Controller.State.{
  Controller, Attempt, Outgoing, set_status, act, set_attempt, cancel_pending_rejoin, Place,
  PendingRejoin, Continuation, proceed, establish, report_failure, report_error, report_closed,
  end_meeting, Teardown, teardown_ends, end_teardown,
}
use mattermost_plugin_openta.Controller.Join.{
  timer_fires, start_conference_connection, join_succeeds, join_fails, fire,
}
use mattermost_plugin_openta.Controller.Events.{
  on_connected, on_livekit_credentials, on_closed, on_error, on_livekit_disconnected,
  on_livekit_failed, start_heartbeat, bring_up_livekit, bring_up_inlined, start_heartbeat,
}
use mattermost_plugin_openta.Controller.Calls.{
  resets, reset, Happening, starts, leaves, ends, join_ok, join_bad, client_connected,
  client_credentials, client_closed, client_error, media_dropped, media_failed, end_failed,
  on_end_failed, torn_down, runs, timer, writes, step, leave_active_conference, end_active_meeting,
  continue_with, run_next, end_on, debrief,
}
use mattermost_plugin_openta.Controller.Handlers.{is_local}
use mattermost_plugin_openta.Controller.Handlers.Steps.{step-local}
use mattermost_plugin_openta.Controller.Apart.{
  SamePlugin, Kept, written, Kept-IsClosed, choice, torn, rejoined, established, proceeded,
  reported, failed, left_kept, result_kept, waited,
}

-- Any write of other code than the controller's is out of its hands.
abbrev pub is_controllers : Happening → Bool
is_controllers (writes a) = false
is_controllers _ = true

module _ (r : RootState) where
  -- What does not touch the store.
  attempt_kept : (k : ℕ) (a : Attempt) (w : Controller) → Kept r w → Kept r (set_attempt k a w)
  unfolding Kept
  attempt_kept k a w p = p

  no_media : (w : Controller) → Kept r w → Kept r (record w { livekit = none })
  unfolding Kept
  no_media w p = p

  uncancelled : (w : Controller) → Kept r w → Kept r (cancel_pending_rejoin w)
  unfolding Kept
  uncancelled w p = p

  popped : (ks : List Continuation) (w : Controller) → Kept r w → Kept r (record w { ready = ks })
  unfolding Kept
  popped ks w p = p

  debriefed : (k : Option ℕ) (w : Controller) → Kept r w → Kept r (debrief k w)
  unfolding Kept
  debriefed none w p = p
  debriefed (some k) w p = p

  ended_on : (c : Option String) (w : Controller) → Kept r w → Kept r (end_on c w)
  unfolding Kept
  ended_on none w p = p
  ended_on (some c) w p = choice r (truthy c) _ w p p

  was_reset : (w : Controller) → Kept r w → Kept r (reset w)
  unfolding reset Kept
  was_reset w p = p

  timed : (w : Controller) → Kept r w → Kept r (timer_fires w)
  unfolding timer_fires Kept
  timed w p = go w.rejoin
    where
      go : (q : Option PendingRejoin) → Kept r (fire q w)
      go none = p
      go (some q) = choice r q.timer _ w p p

  credentials_kept :
      (k : ℕ) (c : Credentials) (w : Controller) → Kept r w → Kept r (on_livekit_credentials k c w)
  unfolding on_livekit_credentials bring_up_livekit Kept
  credentials_kept k c w p = choice r _ w _ p p

  brought_up :
      (k : ℕ) (lk : Option Credentials) (w : Controller)
      → Kept r w
      → Kept r (bring_up_inlined k lk w)
  unfolding bring_up_livekit Kept
  brought_up k none w p = p
  brought_up k (some c) w p = choice r _ _ w p p

  runs_on :
      (channel_id : String) (w : Controller)
      → Kept r w
      → Kept r (act set_status (start_heartbeat channel_id w))
  unfolding start_heartbeat Kept
  runs_on channel_id w p = p

  asked : (o : Outgoing) (w : Controller) → Kept r w → Kept r (act o w)
  unfolding Kept
  asked o w p = p

  continued : (c : Continuation) (w : Controller) → Kept r w → Kept r (continue_with c w)
  unfolding continue_with
  continued (proceed id) w p = proceeded r id w p
  continued (establish place) w p = established r place none true w p
  continued (report_failure k f m) w p = failed r k f m w p
  continued (report_error k m) w p = reported r k m w p
  continued report_closed w p = written r _ w refl p
  continued (end_meeting c) w p = ended_on c w p

  ran_next : (ks : List Continuation) (w : Controller) → Kept r w → Kept r (run_next ks w)
  ran_next [] w p = p
  ran_next (k ∷ ks) w p = continued k (record w { ready = ks }) (popped ks w p)

  ended_teardown : (o : Option Teardown) (w : Controller) → Kept r w → Kept r (end_teardown o w)
  ended_teardown none w p = p
  ended_teardown (some t) w p =
      choice r (is_some t.livekit) _ _ (waited r none t.client t.waiting w p)
        (waited r none none t.waiting w p)

  connected_kept :
      (k : ℕ) (ps : List Participant) (lk : Option Credentials) (host : Bool) (w : Controller)
      → Kept r w
      → Kept r (on_connected k ps lk host w)
  unfolding on_connected
  connected_kept k ps lk host w p =
      let stored = written r _ _ refl (written r _ w refl p) in
      let running = runs_on (w.attempts k).place.channel_id _ (brought_up k lk _ stored) in
      choice r _ _ _ (asked _ _ running) running

  ended : (w : Controller) → Kept r w → Kept r (end_active_meeting w)
  unfolding end_active_meeting
  ended w p =
      choice r w.has_store _ _ (left_kept r _ _ (debriefed w.client w p)) (left_kept r [] w p)

  closed_kept : (k : ℕ) (rec : Bool) (w : Controller) → Kept r w → Kept r (on_closed k rec w)
  unfolding on_closed
  closed_kept k rec w p =
      choice r _ w _ p
        (choice r _ _ _ (attempt_kept k _ w p) (choice r rec _ _ (rejoined r k w p) (torn r _ w p)))

  media_failed_kept : (lk : ℕ) (w : Controller) → Kept r w → Kept r (on_livekit_failed lk w)
  unfolding on_livekit_failed
  media_failed_kept lk w p =
      let q = no_media _ (written r (set_livekit_connected false) w refl p) in
      choice r _ w _ p (choice r _ _ _ (written r _ _ refl q) q)

  started :
      (place : Place) (w : Controller) → Kept r w → Kept r (start_conference_connection place w)
  unfolding start_conference_connection
  started place w p =
      let q = written r (set_reconnect_attempt 0) _ refl (uncancelled w p) in
      choice r _ _ _ (torn r _ _ q) (established r place none true _ q)

  far_kept :
      (h : Happening) (w : Controller)
      → is_controllers h ≡ true
      → is_local h ≡ false
      → Kept r w
      → Kept r (step h w)
  unfolding step leave_active_conference join_succeeds join_fails on_error on_livekit_disconnected
      on_end_failed teardown_ends
  far_kept (starts place) w m o p = started place w p
  far_kept leaves w m o p = left_kept r [] w p
  far_kept ends w m o p = ended w p
  far_kept (join_ok k) w m o p = result_kept r _ true _ (attempt_kept k _ w p)
  far_kept (join_bad k f message) w m o p =
      choice r _ _ _ (torn r _ w p) (result_kept r _ false w p)
  far_kept (client_connected k ps lk host) w m o p = connected_kept k ps lk host w p
  far_kept (client_credentials k c) w m o p = credentials_kept k c w p
  far_kept (client_closed k rec) w m o p = closed_kept k rec w p
  far_kept (client_error k message) w m o p = choice r _ w _ p (torn r _ w p)
  far_kept (media_dropped lk) w m o p = choice r _ _ w (rejoined r _ w p) p
  far_kept (media_failed lk) w m o p = media_failed_kept lk w p
  far_kept end_failed w m o p = written r _ w refl p
  far_kept torn_down w m o p = ended_teardown w.tearing_down w p
  far_kept runs w m o p = ran_next w.ready w p
  far_kept timer w m o p = timed w p
  far_kept resets w m o p = was_reset w p
  far_kept (writes a) w m o p = cc
  far_kept _ w m o p = cc

Kept_self : (w : Controller) → Kept w.root w
unfolding Kept
Kept_self w = record { calls = refl; meetings = refl; account = refl }

-- Nothing that can happen to the controller changes the incoming calls, the active meetings or the
-- account, but a write to the store that is not the controller's own.
pub step-SamePlugin :
    (h : Happening) (w : Controller) → is_controllers h ≡ true → SamePlugin w.root (step h w).root
unfolding Kept
step-SamePlugin h w m = elim (Bool-cases (is_local h)) [
  | inl near ↦ step-local (Kept w.root) (Kept-IsClosed w.root) h w near (Kept_self w)
  | inr far ↦ far_kept w.root h w m far (Kept_self w)
]
