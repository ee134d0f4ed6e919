-- ===== src/Plugin/Entry/Ending.antt =====
-- A message of the host application ends the call, for good.
use mattermost_plugin_openta.Base.{◌≡◌, Bool, true, false, none, List}
use mattermost_plugin_openta.Controller.Calls.{Happening, leave_active_conference}
use mattermost_plugin_openta.Controller.Calls
use mattermost_plugin_openta.Controller.Left.{AllQuiet, IsLeft, connects, dispatch-IsLeft, no_joins}
use mattermost_plugin_openta.Controller.Leaving.{leave-IsLeft, run-IsLeft}
use mattermost_plugin_openta.Plugin.Entry.{
  Host, is_in_channel, is_removed, PluginEvent, meeting_ended, user_removed, uninitialized, step,
  on_meeting_ended, on_user_removed, uninitialize,
}

-- The meeting of the channel that the call is in ends, the user is removed from that channel, or the
-- plugin is taken down.
abbrev pub ends_call : PluginEvent → Host → Bool
ends_call (meeting_ended id) h = is_in_channel id h.controller
ends_call (user_removed user id) h = is_removed user id h
ends_call uninitialized h = true
ends_call _ h = false

ended-IsLeft :
    (e : PluginEvent) (h : Host)
    → ends_call e h ≡ true
    → h.controller.tearing_down ≡ none
    → no_joins h.controller.ready ≡ true
    → IsLeft (connects h.controller.log) (step e h).controller
unfolding step on_meeting_ended on_user_removed uninitialize
ended-IsLeft (meeting_ended id) h e t r =
    simp e (dispatch-IsLeft _ _ _ (dispatch-IsLeft _ _ _ (leave-IsLeft h.controller t r)))
ended-IsLeft (user_removed user id) h e t r = simp e (leave-IsLeft h.controller t r)
ended-IsLeft uninitialized h e t r = leave-IsLeft h.controller t r
ended-IsLeft _ h e t r = cc

-- After an event that ends the call, in a controller without a teardown running or a manual join
-- waiting, there is no rejoin, no client and no LiveKit room, and no client is told to connect, whatever
-- happens to the controller, as long as the user does not join again and no client emits `connected` or
-- `livekit_credentials`.
pub run-ended-IsLeft :
    (e : PluginEvent) (h : Host) (hs : List Happening)
    → ends_call e h ≡ true
    → h.controller.tearing_down ≡ none
    → no_joins h.controller.ready ≡ true
    → AllQuiet hs
    → IsLeft (connects h.controller.log) (Calls.run hs (step e h).controller)
run-ended-IsLeft e h hs x t r q =
    run-IsLeft (connects h.controller.log) hs (step e h).controller q (ended-IsLeft e h x t r)
