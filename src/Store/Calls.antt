-- ===== src/Store/Calls.antt =====
-- webapp/src/store/slice_incoming_calls.ts and slice_active_meetings.ts
pub mod Laws
use mattermost_plugin_openta.Base.{
  String, true, false, Option, none, some, [], Dict, lookup, insert, erase,
}
use mattermost_plugin_openta.Store.Action.{
  Action, IncomingCall, ActiveMeeting, incoming_call_received, incoming_call_dismissed,
  incoming_call_cleared, incoming_calls_reset, active_meeting_started, active_meeting_ended,
  active_meeting_dismissed,
}

pub record IncomingCallsState : Type 0 where
  pub calls : Dict IncomingCall

pub record ActiveMeetingsState : Type 0 where
  pub meetings : Dict ActiveMeeting

dismiss_call : IncomingCallsState → String → Option IncomingCall → IncomingCallsState
dismiss_call s id none = s
dismiss_call s id (some call) = record {
  calls = insert id (record call { dismissed = some true }) s.calls;
}

clear_call : IncomingCallsState → String → Option IncomingCall → IncomingCallsState
clear_call s id none = s
clear_call s id (some call) = record { calls = erase id s.calls }

unfoldable pub incoming_calls_reducer : IncomingCallsState → Action → IncomingCallsState
unfolding dismiss_call clear_call
incoming_calls_reducer s (incoming_call_received call) = record {
  calls = insert call.channel_id (record call { dismissed = some false }) s.calls;
}
incoming_calls_reducer s (incoming_call_dismissed id) = dismiss_call s id (lookup id s.calls)
incoming_calls_reducer s (incoming_call_cleared id) = clear_call s id (lookup id s.calls)
incoming_calls_reducer s incoming_calls_reset = record { calls = [] }
incoming_calls_reducer s _ = s

end_meeting : ActiveMeetingsState → String → Option ActiveMeeting → ActiveMeetingsState
end_meeting s id none = s
end_meeting s id (some am) = record { meetings = erase id s.meetings }

dismiss_meeting : ActiveMeetingsState → String → Option ActiveMeeting → ActiveMeetingsState
dismiss_meeting s id none = s
dismiss_meeting s id (some am) = record {
  meetings = insert id (record am { dismissed = some true }) s.meetings;
}

unfoldable pub active_meetings_reducer : ActiveMeetingsState → Action → ActiveMeetingsState
unfolding end_meeting dismiss_meeting
active_meetings_reducer s (active_meeting_started am) = record {
  meetings = insert am.channel_id (record am { dismissed = some false }) s.meetings;
}
active_meetings_reducer s (active_meeting_ended id) = end_meeting s id (lookup id s.meetings)
active_meetings_reducer s (active_meeting_dismissed id) =
    dismiss_meeting s id (lookup id s.meetings)
active_meetings_reducer s _ = s
