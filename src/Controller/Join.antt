-- ===== src/Controller/Join.antt =====
-- Joining: `establishConference`, the auto-rejoin loop, and the manual join of controller.ts.
use Prim.Native.String.{◌++◌}
use mathlib.Core.List
use mattermost_plugin_openta.Base.{
  ℕ, suc, String, Bool, true, false, Option, none, some, [], ◌∷◌, ltb, leb, nat_eq, if◌then◌else◌,
  is_some, ◌&&◌,
}
use mattermost_plugin_openta.Store.Action.{connect_started, connect_error, set_reconnect_attempt}
use mattermost_plugin_openta.Store.Root.{select_reconnect_attempt}
use mattermost_plugin_openta.Signaling.RoomState.{JoinFailure, cancelled}
use mattermost_plugin_openta.Controller.State.{
  Controller, Place, PendingRejoin, proceed, establish, report_failure, connect_client, mark_drop,
  rejoin_max_attempts, dispatch, act, is_current, t, notice_error, set_attempt, tear_down,
  cancel_pending_rejoin, read_local_media_state,
}

abbrev pub closed_text : Controller → String
closed_text w = t w "Die Meetingverbindung wurde beendet" "The meeting connection was closed"

-- Whether the pending rejoin is still the one with this id.
abbrev pub is_pending : Option PendingRejoin → ℕ → Bool
is_pending none id = false
is_pending (some r) id = nat_eq r.id id

abbrev pub give_up : String → Controller → Controller
give_up message w =
    notice_error message (dispatch (set_reconnect_attempt 0) (record w { rejoin = none }))

abbrev pub next_attempt : Bool → PendingRejoin → Controller → Controller
next_attempt true r w = record w { rejoin = none }
next_attempt false r w =
    if leb rejoin_max_attempts r.attempt
    then give_up
        (t w "Verbindung konnte nicht wiederhergestellt werden"
          "Could not restore the meeting connection")
        w
    else record w { rejoin = some (record r { timer = true }) }

abbrev pub rejoin_result : Option PendingRejoin → ℕ → Bool → Controller → Controller
rejoin_result none id joined w = w
rejoin_result (some r) id joined w = if nat_eq r.id id then next_attempt joined r w else w

-- What the caller of `establishConference` does with its result: a manual join nothing.
unfoldable pub attempt_result : Option ℕ → Bool → Controller → Controller
attempt_result none joined w = w
attempt_result (some id) joined w = rejoin_result w.rejoin id joined w

-- The same for the error of a terminal close.
unfoldable pub attempt_terminal : Option ℕ → Controller → Controller
attempt_terminal none w = notice_error (closed_text w) w
attempt_terminal (some id) w = if is_pending w.rejoin id then give_up (closed_text w) w else w

-- `establishConference` up to its `await`.
unfoldable pub establish_conference : Place → Option ℕ → Bool → Controller → Controller
establish_conference place owner notify w =
    let k = w.fresh in
    if is_some w.client
    then attempt_result owner false w
    else act (connect_client k place) (
        dispatch (connect_started place.channel_id place.room_id) (
          set_attempt k
            (record {
              place = place;
              owner = owner;
              notify_on_failure = notify;
              join_settled = false;
              terminal_close = false;
              error_dispatched = false;
            })
            (record w { has_store = true; client = some k; fresh = suc k })))

-- `proceed` in `runRejoinAttempt`.
abbrev pub proceed_with : Option PendingRejoin → ℕ → Controller → Controller
proceed_with none id w = w
proceed_with (some r) id w =
    if nat_eq r.id id
    then establish_conference r.place (some id) false (
        dispatch (set_reconnect_attempt (suc r.attempt))
          (record w { rejoin = some (record r { attempt = suc r.attempt }) }))
    else w

unfoldable pub run_proceed : ℕ → Controller → Controller
run_proceed id w = proceed_with w.rejoin id w

-- `rejoinAfterDrop` of a client: the rejoin's first attempt waits for the teardown.
unfoldable pub rejoin_after_drop : ℕ → Controller → Controller
rejoin_after_drop k w =
    let id = w.fresh in
    let q = tear_down (proceed id ∷ []) (act (mark_drop k) (record w { fresh = suc id })) in
    record q {
      media_restore = some (read_local_media_state w);
      rejoin = some (record { id = id; place = (w.attempts k).place; attempt = 0; timer = false });
    }

-- The timer of the pending rejoin fires; its next attempt goes through the settled `after`.
abbrev pub fire : Option PendingRejoin → Controller → Controller
fire none w = w
fire (some r) w =
    if r.timer
    then record w {
      rejoin = some (record r { timer = false });
      ready = List.◌++◌ w.ready (proceed r.id ∷ []);
    }
    else w

unfoldable pub timer_fires : Controller → Controller
timer_fires w = fire w.rejoin w

-- `startConferenceConnection`
unfoldable pub start_conference_connection : Place → Controller → Controller
start_conference_connection place w =
    let q = dispatch (set_reconnect_attempt 0) (cancel_pending_rejoin w) in
    if ltb 0 (select_reconnect_attempt w.root) && is_some w.client
    then tear_down (establish place ∷ []) q
    else establish_conference place none true q

abbrev join_failed_text : Controller → String → String
join_failed_text w message =
    t w "Meeting-Beitritt fehlgeschlagen" "Could not join the meeting" ++ ": " ++ message

-- `dispatchConnectError` of a client.
unfoldable pub dispatch_connect_error : ℕ → String → Controller → Controller
dispatch_connect_error k message w =
    let a = w.attempts k in
    let q =
      dispatch (connect_error message) (set_attempt k (record a { error_dispatched = true }) w) in
    if a.error_dispatched
    then w
    else if a.notify_on_failure
    then notice_error (join_failed_text w message) q
    else q

-- `client.connect` fulfils.
unfoldable pub join_succeeds : ℕ → Controller → Controller
join_succeeds k w =
    let a = w.attempts k in
    attempt_result a.owner true (set_attempt k (record a { join_settled = true }) w)

-- `client.connect` rejects with an error of this text; a superseded attempt stays inert.
unfoldable pub join_fails : ℕ → JoinFailure → String → Controller → Controller
join_fails k failure message w =
    if is_current w.client k
    then tear_down (report_failure k failure message ∷ []) w
    else attempt_result (w.attempts k).owner false w

abbrev pub is_cancelled : JoinFailure → Bool
is_cancelled cancelled = true
is_cancelled _ = false

-- What follows the teardown in that `catch`.
unfoldable pub after_failure : ℕ → JoinFailure → String → Controller → Controller
after_failure k failure message w =
    let a = w.attempts k in
    if is_cancelled failure
    then attempt_result a.owner false w
    else if a.terminal_close
    then attempt_terminal a.owner w
    else attempt_result a.owner false (dispatch_connect_error k message w)
