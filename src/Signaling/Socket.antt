-- ===== src/Signaling/Socket.antt =====
-- The heartbeat of `SignalingSocket` (webapp/src/conference/signaling/socket.ts). The WebSocket under
-- it is the browser's: its events are inputs, what is asked of it is logged.
pub mod Heartbeat
use mattermost_plugin_openta.Base.{
  ℕ, ◌+◌, ◌-◌, Bool, true, false, not, ◌&&◌, List, [], ◌∷◌, ltb, nat_eq, if◌then◌else◌,
}

pub data SocketEffect : Type 0 where
  pinged : SocketEffect
  closed_with : (code : ℕ) → SocketEffect

pub record Socket : Type 0 where
  -- the interval of the heartbeat is set
  pub heartbeat : Bool
  pub last_ping_at : ℕ
  pub last_echo_at : ℕ
  -- the time in milliseconds
  pub now : ℕ
  -- newest first
  pub log : List SocketEffect

abbrev pub ping_interval : ℕ
ping_interval = 12000

abbrev pub echo_timeout : ℕ
echo_timeout = 10000

abbrev pub heartbeat_close_code : ℕ
heartbeat_close_code = 4999

-- A socket that was just connected, at this time.
unfoldable pub new_socket : ℕ → Socket
new_socket now = record {
  heartbeat = false;
  last_ping_at = 0;
  last_echo_at = 0;
  now = now;
  log = [];
}

unfoldable pub start_heartbeat : Socket → Socket
start_heartbeat s = record s { last_ping_at = 0; last_echo_at = 0; heartbeat = true }

unfoldable pub stop_heartbeat : Socket → Socket
stop_heartbeat s = record s { heartbeat = false }

-- `Date.now() - lastPingAt` is not negative: the clock does not go back here.
abbrev pub is_dead : Socket → Bool
is_dead s =
    not (nat_eq s.last_ping_at 0)
    && ltb s.last_echo_at s.last_ping_at
    && ltb echo_timeout (s.now - s.last_ping_at)

unfoldable pub heartbeat_tick : Socket → Socket
unfolding stop_heartbeat
heartbeat_tick s =
    if is_dead s
    then record (stop_heartbeat s) { log = closed_with heartbeat_close_code ∷ s.log }
    else record s { last_ping_at = s.now; log = pinged ∷ s.log }

-- A message of the namespace `echo`.
unfoldable pub on_echo : Socket → Socket
on_echo s = record s { last_echo_at = s.now }

unfoldable pub disconnect : Socket → Socket
disconnect s = record s { log = closed_with 1000 ∷ s.log }

pub data SocketInput : Type 0 where
  opens echoes closes errs disconnects ticks : SocketInput
  passes : (time : ℕ) → SocketInput

-- The interval fires only while it is set.
unfoldable pub step : SocketInput → Socket → Socket
step opens s = start_heartbeat s
step echoes s = on_echo s
step closes s = stop_heartbeat s
step errs s = stop_heartbeat s
step disconnects s = disconnect s
step ticks s = if s.heartbeat then heartbeat_tick s else s
step (passes time) s = record s { now = s.now + time }

unfoldable pub run : List SocketInput → Socket → Socket
run [] s = s
run (i ∷ is) s = run is (step i s)
