-- ===== src/Signaling/Socket/Heartbeat.antt =====
-- The heartbeat closes a dead connection, and only a dead one.
use mattermost_plugin_openta.Base.{
  ℕ, suc, ◌+◌, ◌<◌, ◌≤◌, ◌≡◌, refl, ap, ◌∙◌, Bool, true, false, ◌||◌, List, [], ◌∷◌, leb, nat_eq,
  if◌then◌else◌, arith,
}
use mattermost_plugin_openta.Signaling.RoomState.{is_recoverable_close_code}
use mattermost_plugin_openta.Signaling.Socket.{
  Socket, SocketEffect, pinged, closed_with, ping_interval, heartbeat_close_code, new_socket,
  start_heartbeat, stop_heartbeat, is_dead, heartbeat_tick, on_echo, disconnect, SocketInput, opens,
  echoes, closes, errs, disconnects, ticks, passes, step, run,
}

-- How often the heartbeat closed the connection.
abbrev pub timeouts : List SocketEffect → ℕ
timeouts [] = 0
timeouts (pinged ∷ es) = timeouts es
timeouts (closed_with code ∷ es) =
    if nat_eq code heartbeat_close_code then suc (timeouts es) else timeouts es

-- From an answered state on (or one that waits for an echo), every tick is followed by an echo before
-- the next one.
abbrev pub Answered : (waits : Bool) → List SocketInput → Type 0
Answered w [] = Unit
Answered w (ticks ∷ is) = (w ≡ false) × Answered true is
Answered w (echoes ∷ is) = Answered false is
Answered w (opens ∷ is) = Answered false is
Answered w (_ ∷ is) = Answered w is

-- No ping is later than now, and the last one was echoed, unless an echo is waited for.
record IsAlive (n : ℕ) (w : Bool) (s : Socket) : Type 0 where
  pinged_before : s.last_ping_at ≤ s.now
  echoed : w ≡ false → (nat_eq s.last_ping_at 0 || leb s.last_ping_at s.last_echo_at) ≡ true
  count : timeouts s.log ≡ n

tick-IsAlive : (n : ℕ) (s : Socket) → IsAlive n false s → IsAlive n true (step ticks s)
unfolding step heartbeat_tick
tick-IsAlive n s v = ground (arith, v.echoed refl, v.pinged_before, v.count)

run-IsAlive :
    (n : ℕ) (w : Bool) (is : List SocketInput) (s : Socket)
    → Answered w is
    → IsAlive n w s
    → timeouts (run is s).log ≡ n
unfolding run
run-IsAlive n w [] s a v = v.count
run-IsAlive n true (ticks ∷ is) s a v = cc
run-IsAlive n false (ticks ∷ is) s a v = run-IsAlive n true is _ a.1 (tick-IsAlive n s v)
run-IsAlive n w (echoes ∷ is) s a v =
    run-IsAlive n false is (step echoes s) a
      (unfold step on_echo in (ground (arith, v.pinged_before, v.count)))
run-IsAlive n w (opens ∷ is) s a v =
    run-IsAlive n false is (step opens s) a
      (unfold step start_heartbeat in (ground (arith, v.count)))
run-IsAlive n w (closes ∷ is) s a v = run-IsAlive n w is (step closes s) a (
    unfold step stop_heartbeat in
    (record { pinged_before = v.pinged_before; echoed = v.echoed; count = v.count }))
run-IsAlive n w (errs ∷ is) s a v = run-IsAlive n w is (step errs s) a (
    unfold step stop_heartbeat in
    (record { pinged_before = v.pinged_before; echoed = v.echoed; count = v.count }))
run-IsAlive n w (disconnects ∷ is) s a v = run-IsAlive n w is (step disconnects s) a (
    unfold step disconnect in
    (record { pinged_before = v.pinged_before; echoed = v.echoed; count = v.count }))
run-IsAlive n w (passes t ∷ is) s a v = run-IsAlive n w is (step (passes t) s) a (
    unfold step in
    (record { pinged_before = omega (arith, v.pinged_before); echoed = v.echoed; count = v.count }))

-- A connection on which every ping is echoed before the next tick is never closed by the heartbeat,
-- whatever else happens and however much time passes.
pub timeouts-run :
    (now : ℕ) (is : List SocketInput)
    → Answered false is
    → timeouts (run is (new_socket now)).log ≡ 0
timeouts-run now is a = run-IsAlive 0 false is (new_socket now) a (
    unfold new_socket in (record { pinged_before = omega arith; echoed = λ e. refl; count = refl }))

abbrev pings : Socket → Socket
pings s = record s { last_ping_at = s.now; log = pinged ∷ s.log }

tick-alive : (s : Socket) → s.heartbeat ≡ true → is_dead s ≡ false → step ticks s ≡ pings s
unfolding step heartbeat_tick
tick-alive s h d = simp (h, d) refl

abbrev times_out : Socket → Socket
times_out s = record s { heartbeat = false; log = closed_with heartbeat_close_code ∷ s.log }

tick-times_out : (s : Socket) → s.heartbeat ≡ true → is_dead s ≡ true → step ticks s ≡ times_out s
unfolding step heartbeat_tick stop_heartbeat
tick-times_out s h d = simp (h, d) refl

-- The state one interval after a ping.
abbrev late : Socket → Socket
late s = record (pings s) { now = s.now + ping_interval }

late-is_dead : (s : Socket) → s.last_echo_at < s.now → is_dead (late s) ≡ true
late-is_dead s e = ground arith

late-tick :
    (s : Socket)
    → s.heartbeat ≡ true
    → s.last_echo_at < s.now
    → step ticks (late s) ≡ times_out (late s)
late-tick s h e = tick-times_out (late s) h (late-is_dead s e)

second_tick :
    (s : Socket)
    → s.heartbeat ≡ true
    → is_dead s ≡ false
    → s.last_echo_at < s.now
    → step ticks (step (passes ping_interval) (step ticks s)) ≡ times_out (late s)
second_tick s h d e =
    ap (λ p. step ticks (step (passes ping_interval) p)) (tick-alive s h d)
    ∙ unfold_pass
    ∙ late-tick s h e
  where
    unfold_pass : step ticks (step (passes ping_interval) (pings s)) ≡ step ticks (late s)
    unfold_pass = unfold step in refl

-- A ping that is not echoed until the next tick: if the connection was alive at the first tick, the
-- clock is not at 0 and the last echo is older than the ping, the second tick, one interval later,
-- stops the heartbeat and closes the connection with a code that the room treats as recoverable.
pub tick-dead :
    (s : Socket)
    → s.heartbeat ≡ true
    → is_dead s ≡ false
    → s.last_echo_at < s.now
    → let q = step ticks (step (passes ping_interval) (step ticks s)) in
      (q.log ≡ closed_with heartbeat_close_code ∷ pinged ∷ s.log)
      × (q.heartbeat ≡ false)
      × (is_recoverable_close_code heartbeat_close_code ≡ true)
tick-dead s h d e = rw (second_tick s h d e) (refl, refl, refl)
