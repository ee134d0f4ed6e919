-- ===== src/Tests/Socket.antt =====
-- The heartbeat on small inputs.
use mattermost_plugin_openta.Base.{◌≡◌, refl, true, false, List, [], ◌∷◌, arith}
use mattermost_plugin_openta.Signaling.RoomState.{is_recoverable_close_code}
use mattermost_plugin_openta.Signaling.Socket.{
  Socket, SocketInput, opens, echoes, ticks, passes, pinged, closed_with, ping_interval,
  heartbeat_close_code, new_socket, start_heartbeat, step, run,
}
use mattermost_plugin_openta.Signaling.Socket.Heartbeat.{timeouts, timeouts-run, tick-dead}

abbrev answered : List SocketInput
answered = opens ∷ passes 12000 ∷ ticks ∷ passes 40 ∷ echoes ∷ passes 11960 ∷ ticks ∷ []

timeouts-run_example : timeouts (run answered (new_socket 5)).log ≡ 0
timeouts-run_example = timeouts-run 5 answered (refl, (refl, tt))

-- Open, and one interval later.
abbrev opened : Socket
opened = run (opens ∷ passes 12000 ∷ []) (new_socket 5)

tick-dead_example :
    ((step ticks (step (passes ping_interval) (step ticks opened))).log
      ≡ closed_with heartbeat_close_code ∷ pinged ∷ opened.log)
    × ((step ticks (step (passes ping_interval) (step ticks opened))).heartbeat ≡ false)
    × (is_recoverable_close_code heartbeat_close_code ≡ true)
unfolding run step start_heartbeat new_socket
tick-dead_example = tick-dead opened refl refl (omega arith)
