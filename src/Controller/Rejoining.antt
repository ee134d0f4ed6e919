-- ===== src/Controller/Rejoining.antt =====
-- The auto-rejoin loop of controller.ts: one attempt that fails, step by step.
pub mod Bound
use mattermost_plugin_openta.Base.{
  ℕ, suc, ◌+◌, String, ◌≡◌, refl, Bool, true, false, Option, none, some, List, [], ◌∷◌, arith, leb,
  nat_eq, ◌<◌, ◌≤◌, if◌then◌else◌,
}
use mattermost_plugin_openta.Signaling.RoomState.{JoinFailure}
use mattermost_plugin_openta.Controller.State.{
  Controller, PendingRejoin, Continuation, Teardown, Attempt, proceed, report_failure, report_error,
  dispatch, tear_down, wait_for, teardown_ends, rejoin_max_attempts,
}
use mattermost_plugin_openta.Controller.Join.{
  run_proceed, establish_conference, join_fails, after_failure, dispatch_connect_error,
  attempt_result, timer_fires,
}
use mattermost_plugin_openta.Controller.Calls.{
  Happening, runs, join_bad, client_closed, client_error, torn_down, timer, step, continue_with,
}
use mattermost_plugin_openta.Controller.Events.{on_closed, on_error}
use mattermost_plugin_openta.Controller.Left.{connects}

-- Where the loop is: the rejoin, the client, the teardown, what is ready to go on, the next number,
-- and how often a client was told to connect. No media is up meanwhile.
pub record At (rejoin : Option PendingRejoin) (client : Option ℕ) (teardown : Option Teardown)
    (ready : List Continuation) (fresh n : ℕ) (w : Controller) : Type 0 where
  pub the_rejoin : w.rejoin ≡ rejoin
  pub the_client : w.client ≡ client
  pub no_livekit : w.livekit ≡ none
  pub the_teardown : w.tearing_down ≡ teardown
  pub the_ready : w.ready ≡ ready
  pub the_fresh : w.fresh ≡ fresh
  pub connected : connects w.log ≡ n

nat_eq_refl : (k : ℕ) → nat_eq k k ≡ true
nat_eq_refl k = ground arith

-- The rejoin with one attempt more.
abbrev pub again : PendingRejoin → PendingRejoin
again r = record r { attempt = suc r.attempt }

abbrev pub wait_again : PendingRejoin → PendingRejoin
wait_again r = record r { timer = true }

-- The attempt of client `k` for a rejoin, before anything has settled.
pub record IsFor (id k : ℕ) (w : Controller) : Type 0 where
  pub owned : (w.attempts k).owner ≡ some id
  pub passing : (w.attempts k).terminal_close ≡ false
  pub joining : (w.attempts k).join_settled ≡ false
  pub discreet : (w.attempts k).notify_on_failure ≡ false

pub begins :
    (r : PendingRejoin) (k n : ℕ) (w : Controller)
    → At (some r) none none (proceed r.id ∷ []) k n w
    → At (some (again r)) (some k) none [] (suc k) (suc n) (step runs w)
      × IsFor r.id k (step runs w)
unfolding step continue_with run_proceed establish_conference dispatch
begins r k n w v = (
  record {
    the_rejoin = ground arith;
    the_client = ground arith;
    no_livekit = ground arith;
    the_teardown = ground arith;
    the_ready = ground arith;
    the_fresh = ground arith;
    connected = ground arith;
  },
  record {
    owned = ground arith;
    passing = ground arith;
    joining = ground arith;
    discreet = ground arith;
  },
)

refused :
    (r : PendingRejoin) (k c n : ℕ) (f : JoinFailure) (m : String) (w : Controller)
    → At (some r) (some c) none [] k n w
    → IsFor r.id c w
    → At
        (some r)
        none
        (some (record { livekit = none; client = some c; waiting = report_failure c f m ∷ [] }))
        []
        k
        n
        (step (join_bad c f m) w)
      × IsFor r.id c (step (join_bad c f m) w)
unfolding step join_fails tear_down wait_for dispatch
refused r k c n f m w v a = (ground arith, ground arith)

pub left :
    (o : Option PendingRejoin) (id k c n : ℕ) (ks : List Continuation) (w : Controller)
    → At o none (some (record { livekit = none; client = some c; waiting = ks })) [] k n w
    → IsFor id c w
    → At o none none ks k n (step torn_down w) × IsFor id c (step torn_down w)
unfolding step teardown_ends wait_for
left o id k c n ks w v a = (ground arith, ground arith)

-- A close that can be recovered from, before the join has settled.
closed_early :
    (r : PendingRejoin) (k c n : ℕ) (w : Controller)
    → At (some r) (some c) none [] k n w
    → IsFor r.id c w
    → At (some r) (some c) none [] k n (step (client_closed c true) w)
      × IsFor r.id c (step (client_closed c true) w)
unfolding step on_closed
closed_early r k c n w v a = (ground arith, ground arith)

-- An attempt starts and is refused, and its teardown ends.
pub fails :
    (r : PendingRejoin) (k n : ℕ) (f : JoinFailure) (m : String) (w : Controller)
    → At (some r) none none (proceed r.id ∷ []) k n w
    → At
        (some (again r))
        none
        none
        (report_failure k f m ∷ [])
        (suc k)
        (suc n)
        (step torn_down (step (join_bad k f m) (step runs w)))
      × IsFor r.id k (step torn_down (step (join_bad k f m) (step runs w)))
fails r k n f m w v =
    let (trying, a) = begins r k n w v in
    let (tearing, b) = refused (again r) (suc k) k (suc n) f m _ trying a in
    left (some (again r)) r.id (suc k) k (suc n) _ _ tearing b

pub fails_closed :
    (r : PendingRejoin) (k n : ℕ) (f : JoinFailure) (m : String) (w : Controller)
    → At (some r) none none (proceed r.id ∷ []) k n w
    → At
        (some (again r))
        none
        none
        (report_failure k f m ∷ [])
        (suc k)
        (suc n)
        (step torn_down (step (join_bad k f m) (step (client_closed k true) (step runs w))))
      × IsFor r.id k
          (step torn_down (step (join_bad k f m) (step (client_closed k true) (step runs w))))
fails_closed r k n f m w v =
    let (trying, a) = begins r k n w v in
    let (closing, c) = closed_early (again r) (suc k) k (suc n) _ trying a in
    let (tearing, b) = refused (again r) (suc k) k (suc n) f m _ closing c in
    left (some (again r)) r.id (suc k) k (suc n) _ _ tearing b

pub resumes :
    (r : PendingRejoin) (k c n : ℕ) (f : JoinFailure) (m : String) (w : Controller)
    → At (some r) none none (report_failure c f m ∷ []) k n w
    → IsFor r.id c w
    → r.attempt < rejoin_max_attempts
    → At (some (wait_again r)) none none [] k n (step runs w)
unfolding step continue_with after_failure attempt_result dispatch_connect_error dispatch
resumes r k c n f m w v a h = ground arith

pub fires :
    (r : PendingRejoin) (k n : ℕ) (w : Controller)
    → r.timer ≡ false
    → At (some (wait_again r)) none none [] k n w
    → At (some r) none none (proceed r.id ∷ []) k n (step timer w)
unfolding step timer_fires
fires r k n w h v = ground arith

-- A client's error takes the conference down, before the join is rejected.
abbrev pub erring : ℕ → String → Option Teardown
erring c e = some (record { livekit = none; client = some c; waiting = report_error c e ∷ [] })

torn :
    (r : PendingRejoin) (k c n : ℕ) (e : String) (w : Controller)
    → At (some r) (some c) none [] k n w
    → IsFor r.id c w
    → At (some r) none (erring c e) [] k n (step (client_error c e) w)
      × IsFor r.id c (step (client_error c e) w)
unfolding step on_error tear_down wait_for dispatch
torn r k c n e w v a = (ground arith, ground arith)

pub errs :
    (r : PendingRejoin) (k n : ℕ) (e : String) (w : Controller)
    → At (some r) none none (proceed r.id ∷ []) k n w
    → At
        (some (again r))
        none
        (erring k e)
        []
        (suc k)
        (suc n)
        (step (client_error k e) (step runs w))
      × IsFor r.id k (step (client_error k e) (step runs w))
errs r k n e w v =
    let (trying, a) = begins r k n w v in torn (again r) (suc k) k (suc n) e _ trying a

-- The rejected join finds no client; the loop goes on before the teardown has ended.
pub waits_on :
    (r : PendingRejoin) (k c n : ℕ) (e : String) (f : JoinFailure) (m : String) (w : Controller)
    → At (some r) none (erring c e) [] k n w
    → IsFor r.id c w
    → r.attempt < rejoin_max_attempts
    → At (some (wait_again r)) none (erring c e) [] k n (step (join_bad c f m) w)
      × IsFor r.id c (step (join_bad c f m) w)
unfolding step join_fails attempt_result
waits_on r k c n e f m w v a h = (ground arith, ground arith)

pub reports :
    (o : Option PendingRejoin) (id k c n : ℕ) (e : String) (w : Controller)
    → At o none none (report_error c e ∷ []) k n w
    → IsFor id c w
    → At o none none [] k n (step runs w)
unfolding step continue_with dispatch_connect_error dispatch
reports o id k c n e w v a = ground arith
