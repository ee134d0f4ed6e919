-- ===== src/Tests/Controller.antt =====
-- The controller's theorems at a conference that is left while a rejoin of it is scheduled.
use mattermost_plugin_openta.Base.{◌≡◌, refl, true, false, none, some, List, [], ◌∷◌}
use mattermost_plugin_openta.Store.Root.{initial}
use mattermost_plugin_openta.Signaling.RoomState.{
  ticket_failed, closed_early, cancelled, failed, connection_lost,
}
use mattermost_plugin_openta.Controller.State.{Controller, Place, Attempt, tear_down}
use mattermost_plugin_openta.Controller.Events.{
  on_closed, on_error, on_livekit_disconnected, on_livekit_failed,
}
use mattermost_plugin_openta.Controller.Calls.{
  Happening, client_closed, client_error, torn_down, timer, runs, leave_active_conference, run,
}
use mattermost_plugin_openta.Controller.Teardown.{TearsDown, tear_down-TearsDown, torn_down_inert}
use mattermost_plugin_openta.Controller.Rejoining.Bound.{
  Refusal, alone, closes_first, errs_first, rounds, GaveUp, drop-GaveUp,
}
use mattermost_plugin_openta.Controller.Left.{IsLeft}
use mattermost_plugin_openta.Controller.Leaving.{run-leave-IsLeft}

abbrev place : Place
place = record { room_id = "r"; channel_id = "c"; display_name = "Alice" }

abbrev attempt : Attempt
attempt = record {
  place = place;
  owner = none;
  notify_on_failure = true;
  join_settled = true;
  terminal_close = false;
  error_dispatched = false;
}

-- A client and a LiveKit room are up, and a rejoin is due.
abbrev in_call : Controller
in_call = record {
  root = initial;
  now = 7;
  has_store = true;
  client = some 0;
  livekit = some 1;
  heartbeat = some "c";
  tearing_down = none;
  rejoin = some (record { id = 2; place = place; attempt = 1; timer = true });
  media_restore = none;
  attempts = λ k. attempt;
  livekit_client = λ k. 0;
  german = false;
  fresh = 3;
  ready = [];
  mic_toggle = none;
  cam_toggle = none;
  screen_toggle = none;
  registry = "t1" ∷ [];
  log = [];
}

-- What still arrives after the user has left.
abbrev late : List Happening
late = client_closed 0 true ∷ timer ∷ client_error 0 "late" ∷ torn_down ∷ torn_down ∷ runs ∷ []

run-leave-IsLeft_example : IsLeft 0 (run late (leave_active_conference in_call))
run-leave-IsLeft_example =
    run-leave-IsLeft in_call late refl refl (refl, (refl, (refl, (refl, (refl, (refl, tt))))))

tear_down-TearsDown_example : TearsDown [] in_call none (tear_down [] in_call)
tear_down-TearsDown_example = tear_down-TearsDown [] in_call refl

torn_down_inert_example :
    (on_closed 0 true (tear_down [] in_call) ≡ tear_down [] in_call)
    × (on_error 0 "late" (tear_down [] in_call) ≡ tear_down [] in_call)
    × (on_livekit_disconnected 1 (tear_down [] in_call) ≡ tear_down [] in_call)
    × (on_livekit_failed 1 (tear_down [] in_call) ≡ tear_down [] in_call)
torn_down_inert_example = torn_down_inert [] in_call 0 1 true "late" refl refl

-- Five refusals, one of them of a cancelled join, one after a close and one after an error.
abbrev refusals : List Refusal
refusals =
    alone ticket_failed "down"
    ∷ closes_first closed_early "lost"
    ∷ alone cancelled ""
    ∷ errs_first "lost" (failed connection_lost) "lost"
    ∷ alone ticket_failed "down"
    ∷ []

drop-GaveUp_example :
    GaveUp 5 (run (client_closed 0 true ∷ torn_down ∷ torn_down ∷ rounds 4 refusals) in_call)
drop-GaveUp_example =
    drop-GaveUp 0 in_call refusals
      (record { current = refl; joined = refl; none_running = refl; none_ready = refl }) refl
