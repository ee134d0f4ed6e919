-- ===== src/Controller/Rejoining/Bound.antt =====
-- An auto-rejoin whose attempts all fail makes exactly five, and then says so.
use mattermost_plugin_openta.Base.{
  ℕ, suc, ◌+◌, String, ◌≡◌, refl, true, none, some, List, [], ◌∷◌, arith, subst, sym, ◌<◌, false,
}
use mattermost_plugin_openta.Store.Action.{error}
use mattermost_plugin_openta.Store.Root.{root_reducer}
use mattermost_plugin_openta.Store.Session.{session_reducer}
use mattermost_plugin_openta.Store.Notice.{notice_reducer}
use mattermost_plugin_openta.Signaling.RoomState.{JoinFailure}
use mattermost_plugin_openta.Controller.State.{
  Controller, PendingRejoin, proceed, report_failure, dispatch, tear_down, wait_for, teardown_ends,
  rejoin_max_attempts, t,
}
use mattermost_plugin_openta.Controller.Join.{
  join_fails, after_failure, dispatch_connect_error, attempt_result, timer_fires, rejoin_after_drop,
}
use mattermost_plugin_openta.Controller.Events.{on_closed}
use mattermost_plugin_openta.Controller.Calls.{
  Happening, runs, join_bad, torn_down, timer, client_closed, client_error, step, run,
  continue_with,
}
use mattermost_plugin_openta.Controller.Left.{connects}
use mattermost_plugin_openta.Controller.Rejoining.{
  At, IsFor, again, wait_again, fails, fails_closed, resumes, fires, left, erring, errs, waits_on,
  reports,
}

-- The loop is over, after so many requests to connect.
pub record GaveUp (n : ℕ) (w : Controller) : Type 0 where
  pub over : At none none none [] w.fresh n w
  pub no_attempt : w.root.session.reconnect_attempt ≡ 0
  pub told : w.root.notice.kind ≡ error
  pub text :
      w.root.notice.message
      ≡ some (
          t w "Verbindung konnte nicht wiederhergestellt werden"
            "Could not restore the meeting connection")

recount : {n m : ℕ} {w : Controller} → n ≡ m → GaveUp n w → GaveUp m w
recount {w = w} same g = subst (λ n. GaveUp n w) same g

ends :
    (r : PendingRejoin) (k c n : ℕ) (f : JoinFailure) (m : String) (w : Controller)
    → At (some r) none none (report_failure c f m ∷ []) k n w
    → IsFor r.id c w
    → r.attempt ≡ rejoin_max_attempts
    → GaveUp n (step runs w)
unfolding step continue_with after_failure attempt_result dispatch_connect_error dispatch
    root_reducer session_reducer notice_reducer
ends r k c n f m w v a h = ground arith

stays : (n : ℕ) (w : Controller) → GaveUp n w → GaveUp n (step timer w)
unfolding step timer_fires
stays n w g = ground arith

-- The same while the teardown of a client that failed goes on.
record GivingUp (c : ℕ) (e : String) (n : ℕ) (w : Controller) : Type 0 where
  over : At none none (erring c e) [] w.fresh n w
  no_attempt : w.root.session.reconnect_attempt ≡ 0
  told : w.root.notice.kind ≡ error
  text :
      w.root.notice.message
      ≡ some (
          t w "Verbindung konnte nicht wiederhergestellt werden"
            "Could not restore the meeting connection")

gives_up :
    (r : PendingRejoin) (k c n : ℕ) (e : String) (f : JoinFailure) (m : String) (w : Controller)
    → At (some r) none (erring c e) [] k n w
    → IsFor r.id c w
    → r.attempt ≡ rejoin_max_attempts
    → GivingUp c e n (step (join_bad c f m) w) × IsFor r.id c (step (join_bad c f m) w)
unfolding step join_fails attempt_result dispatch root_reducer session_reducer notice_reducer
gives_up r k c n e f m w v a h = (ground arith, ground arith)

gave_up :
    (id c n : ℕ) (e : String) (w : Controller)
    → GivingUp c e n w
    → IsFor id c w
    → GaveUp n (step runs (step torn_down w))
unfolding step continue_with dispatch_connect_error dispatch teardown_ends wait_for root_reducer
    session_reducer notice_reducer
gave_up id c n e w g a = ground arith

-- How the join of an attempt is refused, with the error's text: with no event of the client, after a
-- close that can be recovered from, or after an error event with a text of its own.
pub data Refusal : Type 0 where
  alone closes_first : JoinFailure → String → Refusal
  errs_first : (error : String) → JoinFailure → String → Refusal

abbrev pub length : List Refusal → ℕ
length [] = 0
length (f ∷ fs) = suc (length fs)

-- What happens in the loop while every attempt fails, from the first client's number on: the attempt
-- starts and is refused, its teardown ends, what follows that runs, and the delay passes.
abbrev pub rounds : ℕ → List Refusal → List Happening
rounds k [] = []
rounds k (alone f m ∷ fs) = runs ∷ join_bad k f m ∷ torn_down ∷ runs ∷ timer ∷ rounds (suc k) fs
rounds k (closes_first f m ∷ fs) =
    runs ∷ client_closed k true ∷ join_bad k f m ∷ torn_down ∷ runs ∷ timer ∷ rounds (suc k) fs
rounds k (errs_first e f m ∷ fs) =
    runs ∷ client_error k e ∷ join_bad k f m ∷ torn_down ∷ runs ∷ timer ∷ rounds (suc k) fs

-- One round, and where it leaves the loop.
abbrev round : ℕ → Refusal → Controller → Controller
round k f w = run (rounds k (f ∷ [])) w

round-GaveUp :
    (r : PendingRejoin) (k n : ℕ) (f : Refusal) (w : Controller)
    → At (some r) none none (proceed r.id ∷ []) k n w
    → suc r.attempt ≡ rejoin_max_attempts
    → GaveUp (suc n) (round k f w)
unfolding run
round-GaveUp r k n (alone f m) w v h =
    let (failed, a) = fails r k n f m w v in
    stays (suc n) _ (ends (again r) (suc k) k (suc n) f m _ failed a h)
round-GaveUp r k n (closes_first f m) w v h =
    let (failed, a) = fails_closed r k n f m w v in
    stays (suc n) _ (ends (again r) (suc k) k (suc n) f m _ failed a h)
round-GaveUp r k n (errs_first e f m) w v h =
    let (failed, a) = errs r k n e w v in
    let (giving, b) = gives_up (again r) (suc k) k (suc n) e f m _ failed a h in
    stays (suc n) _ (gave_up r.id k (suc n) e _ giving b)

round-At :
    (r : PendingRejoin) (k n : ℕ) (f : Refusal) (w : Controller)
    → r.timer ≡ false
    → At (some r) none none (proceed r.id ∷ []) k n w
    → suc r.attempt < rejoin_max_attempts
    → At (some (again r)) none none (proceed r.id ∷ []) (suc k) (suc n) (round k f w)
unfolding run
round-At r k n (alone f m) w idle v h =
    let (failed, a) = fails r k n f m w v in
    fires (again r) (suc k) (suc n) _ idle (resumes (again r) (suc k) k (suc n) f m _ failed a h)
round-At r k n (closes_first f m) w idle v h =
    let (failed, a) = fails_closed r k n f m w v in
    fires (again r) (suc k) (suc n) _ idle (resumes (again r) (suc k) k (suc n) f m _ failed a h)
round-At r k n (errs_first e f m) w idle v h =
    let (failed, a) = errs r k n e w v in
    let (waiting, b) = waits_on (again r) (suc k) k (suc n) e f m _ failed a h in
    let (down, c) = left (some (wait_again (again r))) r.id (suc k) k (suc n) _ _ waiting b in
    fires (again r) (suc k) (suc n) _ idle
      (reports (some (wait_again (again r))) r.id (suc k) k (suc n) e _ down c)

run-rounds :
    (k : ℕ) (f : Refusal) (fs : List Refusal) (w : Controller)
    → run (rounds k (f ∷ fs)) w ≡ run (rounds (suc k) fs) (round k f w)
unfolding run
run-rounds k (alone f m) fs w = refl
run-rounds k (closes_first f m) fs w = refl
run-rounds k (errs_first e f m) fs w = refl

rounds-GaveUp :
    (r : PendingRejoin) (k n : ℕ) (f : Refusal) (fs : List Refusal) (w : Controller)
    → r.timer ≡ false
    → At (some r) none none (proceed r.id ∷ []) k n w
    → r.attempt + suc (length fs) ≡ rejoin_max_attempts
    → GaveUp (n + suc (length fs)) (run (rounds k (f ∷ fs)) w)
rounds-GaveUp r k n f [] w idle v h = recount (omega arith) (round-GaveUp r k n f w v (omega arith))
rounds-GaveUp r k n f (g ∷ fs) w idle v h =
    let due = round-At r k n f w idle v (omega arith) in
    let later = rounds-GaveUp (again r) (suc k) (suc n) g fs (round k f w) idle due (omega arith) in
    recount (omega arith)
      (subst (λ u. GaveUp (suc n + suc (length fs)) u) (sym (run-rounds k f (g ∷ fs) w)) later)

-- A call of this client whose connection is up, with no teardown and no rejoin under way.
pub record IsUp (k : ℕ) (w : Controller) : Type 0 where
  pub current : w.client ≡ some k
  pub joined : (w.attempts k).join_settled ≡ true
  pub none_running : w.tearing_down ≡ none
  pub none_ready : w.ready ≡ []

dropped :
    (k : ℕ) (w : Controller)
    → IsUp k w
    → (r : PendingRejoin) × (r.timer ≡ false)
      × (r.attempt ≡ 0)
      × At
          (some r)
          none
          none
          (proceed r.id ∷ [])
          (suc w.fresh)
          (connects w.log)
          (run (client_closed k true ∷ torn_down ∷ torn_down ∷ []) w)
unfolding run step on_closed rejoin_after_drop teardown_ends tear_down wait_for dispatch
dropped k w u = (
  record { id = w.fresh; place = (w.attempts k).place; attempt = 0; timer = false },
  refl,
  refl,
  ground arith,
)

-- A drop of a connection whose rejoin fails five times in a row, each time with a join that is refused
-- alone, after a close that can be recovered from or after an error event, and whose delay passes after
-- the teardown: exactly five requests to connect are made, then there is no rejoin, no client and no
-- teardown any more, the store counts no attempt, and the last notice is the error that the connection
-- could not be restored.
pub drop-GaveUp :
    (k : ℕ) (w : Controller) (fs : List Refusal)
    → IsUp k w
    → length fs ≡ rejoin_max_attempts
    → GaveUp
        (connects w.log + rejoin_max_attempts)
        (run (client_closed k true ∷ torn_down ∷ torn_down ∷ rounds (suc w.fresh) fs) w)
unfolding run
drop-GaveUp k w [] u h = absurd (omega arith)
drop-GaveUp k w (f ∷ fs) u h =
    let (r, idle, start, due) = dropped k w u in
    recount (omega arith)
      (rounds-GaveUp r (suc w.fresh) (connects w.log) f fs _ idle due (omega arith))
