-- ===== src/Controller/Left.antt =====
-- A conference that was left, and what keeps it so: teardowns and the continuations that wait for one.
use mattermost_plugin_openta.Base.{
  ℕ, suc, ◌≡◌, Bool, true, false, Option, none, some, List, [], ◌∷◌, ◌++◌, arith, is_some,
  Bool-cases, inl, inr, String,
}
use mattermost_plugin_openta.Store.Action.{Action}
use mattermost_plugin_openta.Signaling.RoomState.{JoinFailure}
use mattermost_plugin_openta.Controller.State.{
  Controller, Continuation, Teardown, Outgoing, act, connect_client, proceed, establish,
  report_failure, report_error, report_closed, end_meeting, dispatch, tear_down_with, stop_media,
  forget_call, wait_for, teardown_ends, end_teardown,
}
use mattermost_plugin_openta.Controller.Join.{
  attempt_result, attempt_terminal, run_proceed, dispatch_connect_error, after_failure,
  is_cancelled,
}
use mattermost_plugin_openta.Controller.Handlers.{connects_client}
use mattermost_plugin_openta.Controller.Calls.{
  Happening, starts, client_connected, client_credentials, continue_with,
}

-- No manual join waits among the continuations.
abbrev pub no_joins : List Continuation → Bool
no_joins [] = true
no_joins (establish place ∷ ks) = false
no_joins (_ ∷ ks) = no_joins ks

abbrev pub waiting : Option Teardown → List Continuation
waiting none = []
waiting (some t) = t.waiting

-- How often a client was told to connect.
abbrev pub connects : List Outgoing → ℕ
connects [] = 0
connects (connect_client k place ∷ os) = suc (connects os)
connects (_ ∷ os) = connects os

pub record IsLeft (n : ℕ) (w : Controller) : Type 0 where
  pub no_rejoin : w.rejoin ≡ none
  pub no_client : w.client ≡ none
  pub no_livekit : w.livekit ≡ none
  pub ready_joins : no_joins w.ready ≡ true
  pub waiting_joins : no_joins (waiting w.tearing_down) ≡ true
  pub connected : connects w.log ≡ n

-- A left room emits neither of the two events that bring media up, and the user does not join.
abbrev pub is_quiet : Happening → Bool
is_quiet (starts place) = false
is_quiet (client_connected k ps lk host) = false
is_quiet (client_credentials k c) = false
is_quiet _ = true

abbrev pub AllQuiet : List Happening → Type 0
AllQuiet [] = Unit
AllQuiet (h ∷ hs) = (is_quiet h ≡ true) × AllQuiet hs

pub dispatch-IsLeft : (n : ℕ) (a : Action) (w : Controller) → IsLeft n w → IsLeft n (dispatch a w)
unfolding dispatch
dispatch-IsLeft n a w v = record {
  no_rejoin = v.no_rejoin;
  no_client = v.no_client;
  no_livekit = v.no_livekit;
  ready_joins = v.ready_joins;
  waiting_joins = v.waiting_joins;
  connected = v.connected;
}

-- A request other than to connect does not count.
pub asks-IsLeft :
    (n : ℕ) (o : Outgoing) (w : Controller)
    → connects_client o ≡ false
    → IsLeft n w
    → IsLeft n (act o w)
asks-IsLeft n (connect_client k place) w h v = cc
asks-IsLeft n _ w h v = record {
  no_rejoin = v.no_rejoin;
  no_client = v.no_client;
  no_livekit = v.no_livekit;
  ready_joins = v.ready_joins;
  waiting_joins = v.waiting_joins;
  connected = v.connected;
}

no_joins-append :
    (ks ls : List Continuation)
    → no_joins ks ≡ true
    → no_joins ls ≡ true
    → no_joins (ks ++ ls) ≡ true
no_joins-append [] ls h k = k
no_joins-append (proceed id ∷ ks) ls h k = no_joins-append ks ls h k
no_joins-append (establish place ∷ ks) ls h k = cc
no_joins-append (report_failure c f m ∷ ks) ls h k = no_joins-append ks ls h k
no_joins-append (report_error c m ∷ ks) ls h k = no_joins-append ks ls h k
no_joins-append (report_closed ∷ ks) ls h k = no_joins-append ks ls h k
no_joins-append (end_meeting c ∷ ks) ls h k = no_joins-append ks ls h k

pub no_joins-cons :
    (k : Continuation) (ks : List Continuation)
    → no_joins (k ∷ ks) ≡ true
    → (no_joins (k ∷ []) ≡ true) × (no_joins ks ≡ true)
no_joins-cons k ks h = ground arith

pub attempt_result-IsLeft :
    (n : ℕ) (o : Option ℕ) (b : Bool) (w : Controller)
    → IsLeft n w
    → IsLeft n (attempt_result o b w)
unfolding attempt_result
attempt_result-IsLeft n none b w v = v
attempt_result-IsLeft n (some id) b w v = simp v.no_rejoin v

attempt_terminal-IsLeft :
    (n : ℕ) (o : Option ℕ) (w : Controller) → IsLeft n w → IsLeft n (attempt_terminal o w)
unfolding attempt_terminal
attempt_terminal-IsLeft n none w v = dispatch-IsLeft n _ w v
attempt_terminal-IsLeft n (some id) w v = simp v.no_rejoin v

report-IsLeft :
    (n k : ℕ) (message : String) (w : Controller)
    → IsLeft n w
    → IsLeft n (dispatch_connect_error k message w)
unfolding dispatch_connect_error dispatch
report-IsLeft n k message w v = ground arith

after_failure-IsLeft :
    (n k : ℕ) (f : JoinFailure) (message : String) (w : Controller)
    → IsLeft n w
    → IsLeft n (after_failure k f message w)
unfolding after_failure
after_failure-IsLeft n k f message w v = elim (Bool-cases (is_cancelled f)) [
  | inl c ↦ simp c (attempt_result-IsLeft n _ false w v)
  | inr other ↦ elim (Bool-cases (w.attempts k).terminal_close) [
    | inl term ↦ simp (other, term) (attempt_terminal-IsLeft n _ w v)
    | inr transient ↦
        simp (other, transient) (attempt_result-IsLeft n _ false _ (report-IsLeft n k message w v))
  ]
]

-- A continuation that is no manual join connects nothing.
pub continue-IsLeft :
    (n : ℕ) (c : Continuation) (w : Controller)
    → no_joins (c ∷ []) ≡ true
    → IsLeft n w
    → IsLeft n (continue_with c w)
unfolding continue_with run_proceed
continue-IsLeft n (proceed id) w h v = simp v.no_rejoin v
continue-IsLeft n (establish place) w h v = cc
continue-IsLeft n (report_failure k f m) w h v = after_failure-IsLeft n k f m w v
continue-IsLeft n (report_error k m) w h v = report-IsLeft n k m w v
continue-IsLeft n report_closed w h v = dispatch-IsLeft n _ w v
continue-IsLeft n (end_meeting none) w h v = v
continue-IsLeft n (end_meeting (some c)) w h v = ground arith

pub wait_for-IsLeft :
    (n : ℕ) (lk c : Option ℕ) (ks : List Continuation) (w : Controller)
    → no_joins ks ≡ true
    → IsLeft n w
    → IsLeft n (wait_for lk c ks w)
unfolding wait_for
wait_for-IsLeft n (some lk) c ks w h v = ground arith
wait_for-IsLeft n none (some c) ks w h v = ground arith
wait_for-IsLeft n none none ks w h v = ground (arith, no_joins-append w.ready ks v.ready_joins h)

stop-IsLeft : (n : ℕ) (w : Controller) → IsLeft n w → IsLeft n (forget_call (stop_media w))
unfolding dispatch
stop-IsLeft n w v = elim (Bool-cases w.has_store) [
  | inl store ↦ simp store (ground arith)
  | inr without ↦ simp without (ground arith)
]

pub tear_down_with-IsLeft :
    (n : ℕ) (o : Option Teardown) (ks : List Continuation) (w : Controller)
    → no_joins ks ≡ true
    → IsLeft n w
    → IsLeft n (tear_down_with o ks w)
tear_down_with-IsLeft n (some t) ks w h v = record {
  no_rejoin = v.no_rejoin;
  no_client = v.no_client;
  no_livekit = v.no_livekit;
  ready_joins = no_joins-append w.ready ks v.ready_joins h;
  waiting_joins = v.waiting_joins;
  connected = v.connected;
}
tear_down_with-IsLeft n none ks w h v =
    wait_for-IsLeft n w.livekit w.client ks _ h (stop-IsLeft n w v)

pub teardown_ends-IsLeft : (n : ℕ) (w : Controller) → IsLeft n w → IsLeft n (teardown_ends w)
unfolding teardown_ends
teardown_ends-IsLeft n w v = go w.tearing_down v.waiting_joins
  where
    go : (o : Option Teardown) → no_joins (waiting o) ≡ true → IsLeft n (end_teardown o w)
    go none h = v
    go (some t) h = elim (Bool-cases (is_some t.livekit)) [
      | inl media ↦ rw media (wait_for-IsLeft n none t.client t.waiting w h v)
      | inr without ↦ rw without (wait_for-IsLeft n none none t.waiting w h v)
    ]
