-- ===== src/Controller/Leaving.antt =====
-- Once the user has left, nothing but a new join connects again.
use mattermost_plugin_openta.Base.{
  ℕ, ◌≡◌, refl, Bool, true, false, none, List, [], ◌∷◌, arith, if◌then◌else◌, Bool-cases, inl, inr,
  subst, sym,
}
use mattermost_plugin_openta.Store.Action.{set_reconnect_attempt}
use mattermost_plugin_openta.Store.Root.{select_channel_id}
use mattermost_plugin_openta.Controller.State.{
  Controller, Continuation, end_meeting, dispatch, tear_down, tear_down_with, stop_media,
  forget_call, cancel_pending_rejoin,
}
use mattermost_plugin_openta.Controller.Join.{timer_fires, join_succeeds, join_fails}
use mattermost_plugin_openta.Controller.Events.{
  on_closed, on_error, on_livekit_disconnected, on_livekit_failed,
}
use mattermost_plugin_openta.Controller.Calls.{
  resets, reset, end_failed, on_end_failed, Happening, starts, leaves, ends, join_ok, join_bad,
  client_connected, client_credentials, client_closed, client_error, media_dropped, media_failed,
  torn_down, runs, timer, writes, leave_with, leave_active_conference, end_active_meeting, step,
  run, run_next, reset_reconnect,
}
use mattermost_plugin_openta.Controller.Handlers.{IsClosed, is_local}
use mattermost_plugin_openta.Controller.Handlers.Steps.{step-local}
use mattermost_plugin_openta.Controller.Left.{
  asks-IsLeft, AllQuiet, IsLeft, attempt_result-IsLeft, connects, continue-IsLeft, dispatch-IsLeft,
  is_quiet, no_joins, no_joins-cons, tear_down_with-IsLeft, teardown_ends-IsLeft, wait_for-IsLeft,
}

reset-IsLeft :
    (n : ℕ) (w : Controller) → IsLeft n w → IsLeft n (reset_reconnect (cancel_pending_rejoin w))
unfolding dispatch
reset-IsLeft n w v = ground arith

leave_with-IsLeft :
    (n : ℕ) (ks : List Continuation) (w : Controller)
    → no_joins ks ≡ true
    → IsLeft n w
    → IsLeft n (leave_with ks w)
unfolding leave_with tear_down
leave_with-IsLeft n ks w h v =
    let q = reset_reconnect (cancel_pending_rejoin w) in
    tear_down_with-IsLeft n q.tearing_down ks q h (reset-IsLeft n w v)

end-IsLeft : (n : ℕ) (w : Controller) → IsLeft n w → IsLeft n (end_active_meeting w)
unfolding end_active_meeting
end-IsLeft n w v = elim (Bool-cases w.has_store) [
  | inl store ↦
      simp (store, v.no_client)
        (leave_with-IsLeft n (end_meeting (select_channel_id w.root) ∷ []) w refl v)
  | inr without ↦ simp without (leave_with-IsLeft n [] w refl v)
]

run_next-IsLeft :
    (n : ℕ) (ks : List Continuation) (w : Controller)
    → no_joins ks ≡ true
    → IsLeft n w
    → IsLeft n (run_next ks w)
run_next-IsLeft n [] w h v = v
run_next-IsLeft n (k ∷ ks) w h v =
    let (one, rest) = no_joins-cons k ks h in
    continue-IsLeft n k (record w { ready = ks }) one
      (record {
        no_rejoin = v.no_rejoin;
        no_client = v.no_client;
        no_livekit = v.no_livekit;
        ready_joins = rest;
        waiting_joins = v.waiting_joins;
        connected = v.connected;
      })

if-preserves :
    (P : Controller → Type 0) (b : Bool) (x y : Controller) → P x → P y → P (if b then x else y)
if-preserves P true x y p q = p
if-preserves P false x y p q = q

-- The handlers and calls that neither join, leave nor tear down are of no matter to it.
IsLeft-IsClosed : (n : ℕ) → IsClosed (IsLeft n)
unfolding dispatch
IsLeft-IsClosed n = record {
  writes = λ a w o v. dispatch-IsLeft n a w v;
  keeps = λ ids mic cam screen restore w v. record {
    no_rejoin = v.no_rejoin;
    no_client = v.no_client;
    no_livekit = v.no_livekit;
    ready_joins = v.ready_joins;
    waiting_joins = v.waiting_joins;
    connected = v.connected;
  };
  asks = λ o w h v. asks-IsLeft n o w h v;
}

-- The other happenings, but a join and the two events of a room that bring media up.
rest-IsLeft :
    (n : ℕ) (h : Happening) (w : Controller)
    → is_quiet h ≡ true
    → is_local h ≡ false
    → IsLeft n w
    → IsLeft n (step h w)
unfolding step reset on_closed on_error join_succeeds join_fails on_livekit_disconnected
    on_livekit_failed timer_fires leave_active_conference
rest-IsLeft n (starts place) w q o v = cc
rest-IsLeft n leaves w q o v = leave_with-IsLeft n [] w refl v
rest-IsLeft n ends w q o v = end-IsLeft n w v
rest-IsLeft n (join_ok k) w q o v = attempt_result-IsLeft n _ true _ (ground arith)
rest-IsLeft n (join_bad k f m) w q o v = simp v.no_client (attempt_result-IsLeft n _ false w v)
rest-IsLeft n (client_connected k ps lk host) w q o v = cc
rest-IsLeft n (client_credentials k c) w q o v = cc
rest-IsLeft n (client_closed k rec) w q o v = simp v.no_client v
rest-IsLeft n (client_error k m) w q o v = simp v.no_client v
rest-IsLeft n (media_dropped lk) w q o v = simp v.no_livekit v
rest-IsLeft n (media_failed lk) w q o v = simp v.no_livekit v
rest-IsLeft n end_failed w q o v = unfold on_end_failed in (dispatch-IsLeft n _ w v)
rest-IsLeft n torn_down w q o v = teardown_ends-IsLeft n w v
rest-IsLeft n runs w q o v = run_next-IsLeft n w.ready w v.ready_joins v
rest-IsLeft n timer w q o v = simp v.no_rejoin v
rest-IsLeft n resets w q o v = record {
  no_rejoin = refl;
  no_client = refl;
  no_livekit = refl;
  ready_joins = v.ready_joins;
  waiting_joins = v.waiting_joins;
  connected = v.connected;
}
rest-IsLeft n (writes a) w q o v = dispatch-IsLeft n a w v
rest-IsLeft n _ w q o v = cc

step-IsLeft :
    (n : ℕ) (h : Happening) (w : Controller) → is_quiet h ≡ true → IsLeft n w → IsLeft n (step h w)
step-IsLeft n h w q v = elim (Bool-cases (is_local h)) [
  | inl near ↦ step-local (IsLeft n) (IsLeft-IsClosed n) h w near v
  | inr far ↦ rest-IsLeft n h w q far v
]

pub run-IsLeft :
    (n : ℕ) (hs : List Happening) (w : Controller) → AllQuiet hs → IsLeft n w → IsLeft n (run hs w)
unfolding run
run-IsLeft n [] w q v = v
run-IsLeft n (h ∷ hs) w q v = run-IsLeft n hs (step h w) q.1 (step-IsLeft n h w q.0 v)

stopped :
    (w : Controller)
    → w.rejoin ≡ none
    → no_joins w.ready ≡ true
    → w.tearing_down ≡ none
    → IsLeft (connects w.log) (forget_call (stop_media w))
unfolding dispatch
stopped w r h e = ground arith

-- A teardown that finds none running, nor a rejoin, leaves.
tear_down-IsLeft :
    (w : Controller)
    → w.rejoin ≡ none
    → no_joins w.ready ≡ true
    → w.tearing_down ≡ none
    → IsLeft (connects w.log) (tear_down [] w)
unfolding tear_down
tear_down-IsLeft w r h e =
    subst (λ o. IsLeft (connects w.log) (tear_down_with o [] w)) (sym e)
      (wait_for-IsLeft (connects w.log) w.livekit w.client [] _ refl (stopped w r h e))

pub leave-IsLeft :
    (w : Controller)
    → w.tearing_down ≡ none
    → no_joins w.ready ≡ true
    → IsLeft (connects w.log) (leave_active_conference w)
unfolding leave_active_conference leave_with dispatch
leave-IsLeft w e h =
    let q = cancel_pending_rejoin w in
    if-preserves (λ p. IsLeft (connects w.log) (tear_down [] p)) w.has_store
      (dispatch (set_reconnect_attempt 0) q) q
      (tear_down-IsLeft (dispatch (set_reconnect_attempt 0) q) refl h e)
      (tear_down-IsLeft q refl h e)

-- After a leave that finds no teardown running and no manual join waiting, there is no rejoin, no
-- client and no LiveKit room, and no client is told to connect, whatever timers, results, late closes,
-- errors, media events and further leaves follow, as long as the user does not join again and no
-- client emits `connected` or `livekit_credentials`.
pub run-leave-IsLeft :
    (w : Controller) (hs : List Happening)
    → w.tearing_down ≡ none
    → no_joins w.ready ≡ true
    → AllQuiet hs
    → IsLeft (connects w.log) (run hs (leave_active_conference w))
run-leave-IsLeft w hs e h q =
    run-IsLeft (connects w.log) hs (leave_active_conference w) q (leave-IsLeft w e h)
