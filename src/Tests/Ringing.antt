-- ===== src/Tests/Ringing.antt =====
-- The theorems on the window for incoming calls, at calls that come and are declined.
use mattermost_plugin_openta.Base.{◌≡◌, refl, true, false, some, List, [], ◌∷◌, Storage, arith}
use mattermost_plugin_openta.Store.Action.{incoming_call_received}
use mattermost_plugin_openta.Store.Root.{initial, root_reducer}
use mattermost_plugin_openta.Store.Session.{session_reducer}
use mattermost_plugin_openta.Store.Calls.{incoming_calls_reducer}
use mattermost_plugin_openta.Controller.State.{Controller, dispatch}
use mattermost_plugin_openta.Controller.Calls
use mattermost_plugin_openta.Controller.Calls.{writes}
use mattermost_plugin_openta.Plugin.Ringtone.{read_ringtone}
use mattermost_plugin_openta.Components.Ringing.{
  shown_incoming, latest_call, show_call, decline, declined,
}
use mattermost_plugin_openta.Components.Ringing.Window.{
  WindowEvent, happens, declines, waits, shown_of, reset_buttons, ring_effect, arm, render, renders,
  step, run, mount,
}
use mattermost_plugin_openta.Components.Ringing.Window.Sounding.{RingsFor, run-RingsFor}
use mattermost_plugin_openta.Components.Ringing.Window.Beginning.{run-call-rings}
use mattermost_plugin_openta.Tests.Components.{call, hosting}

abbrev idle_controller : Controller
idle_controller = record (hosting false) { root = initial }

abbrev storage : Storage
storage = record { readable = true; writable = true; entries = [] }

-- Two calls come, and the later one is declined.
abbrev two_calls : List WindowEvent
two_calls =
    happens (writes (incoming_call_received (call "c" 5)))
    ∷ happens (writes (incoming_call_received (call "d" 6)))
    ∷ declines false
    ∷ []

run-RingsFor_example :
    RingsFor
      (shown_of (run two_calls (mount idle_controller storage)))
      (run two_calls (mount idle_controller storage))
run-RingsFor_example = run-RingsFor two_calls idle_controller storage

-- The other call is shown then, with its timer, in silence.
next_silent :
    ((run two_calls (mount idle_controller storage)).sound ≡ false)
    × ((run two_calls (mount idle_controller storage)).timer ≡ some 30005)
    × (shown_of (run two_calls (mount idle_controller storage))
        ≡ some (record (call "c" 5) { dismissed = some false }))
unfolding run step mount renders render reset_buttons ring_effect arm shown_incoming latest_call
    show_call decline declined Calls.step dispatch root_reducer incoming_calls_reducer read_ringtone
    session_reducer
next_silent = (refl, refl, refl)

run-call-rings_example :
    ((step
        (happens (writes (incoming_call_received (call "c" 5))))
        (run (waits 3 ∷ []) (mount idle_controller storage))).sound
      ≡ true)
    × ((step
          (happens (writes (incoming_call_received (call "c" 5))))
          (run (waits 3 ∷ []) (mount idle_controller storage))).timer
        ≡ some 30005)
unfolding run step mount renders render reset_buttons ring_effect arm shown_incoming latest_call
    Calls.step dispatch root_reducer incoming_calls_reducer read_ringtone session_reducer
run-call-rings_example =
    run-call-rings (waits 3 ∷ []) idle_controller storage
      (writes (incoming_call_received (call "c" 5)))
      (record (call "c" 5) { dismissed = some false }) refl refl (omega arith) refl
