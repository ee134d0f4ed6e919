-- ===== src/Store/Calls/Laws.antt =====
-- What each action does to the call and to the meeting of each channel.
use mathlib.Core.Option
use mattermost_plugin_openta.Base.{
  ◌⊎◌, ◌<◌, size, size-erase-lookup, String, ◌≡◌, refl, true, false, Option, none, some, lookup,
  lookup-insert, lookup-erase, eq_iff, ◌==◌, if◌then◌else◌, arith, Option-cases, inl, inr,
}
use mattermost_plugin_openta.Store.Action.{
  Action, IncomingCall, ActiveMeeting, incoming_call_received, incoming_call_dismissed,
  incoming_call_cleared, incoming_calls_reset, active_meeting_started, active_meeting_ended,
  active_meeting_dismissed,
}
use mattermost_plugin_openta.Store.Calls.{
  IncomingCallsState, ActiveMeetingsState, dismiss_call, clear_call, incoming_calls_reducer,
  end_meeting, dismiss_meeting, active_meetings_reducer,
}

abbrev pub dismissed_call : IncomingCall → IncomingCall
dismissed_call c = record c { dismissed = some true }

abbrev pub fresh_call : IncomingCall → IncomingCall
fresh_call c = record c { dismissed = some false }

abbrev pub dismissed_meeting : ActiveMeeting → ActiveMeeting
dismissed_meeting m = record m { dismissed = some true }

abbrev pub fresh_meeting : ActiveMeeting → ActiveMeeting
fresh_meeting m = record m { dismissed = some false }

-- The call of each channel after an action.
abbrev pub call_step : (String → Option IncomingCall) → Action → String → Option IncomingCall
call_step m (incoming_call_received c) j = if c.channel_id == j then some (fresh_call c) else m j
call_step m (incoming_call_dismissed id) j =
    if id == j then Option.map dismissed_call (m j) else m j
call_step m (incoming_call_cleared id) j = if id == j then none else m j
call_step m incoming_calls_reset j = none
call_step m _ j = m j

-- The meeting of each channel after an action.
abbrev pub meeting_step : (String → Option ActiveMeeting) → Action → String → Option ActiveMeeting
meeting_step m (active_meeting_started am) j =
    if am.channel_id == j then some (fresh_meeting am) else m j
meeting_step m (active_meeting_ended id) j = if id == j then none else m j
meeting_step m (active_meeting_dismissed id) j =
    if id == j then Option.map dismissed_meeting (m j) else m j
meeting_step m _ j = m j

dismiss_call-lookup :
    (s : IncomingCallsState) (id j : String)
    → lookup j (dismiss_call s id (lookup id s.calls)).calls
      ≡ (if id == j then Option.map dismissed_call (lookup j s.calls) else lookup j s.calls)
unfolding dismiss_call
dismiss_call-lookup s id j = elim (Option-cases (lookup id s.calls)) [
  | inl e ↦ rw (e, dismiss_call) (ground (arith, eq_iff id j))
  | inr (c, e) ↦
      rw (e, dismiss_call)
        (ground (arith, eq_iff id j, lookup-insert id j (dismissed_call c) s.calls))
]

clear_call-lookup :
    (s : IncomingCallsState) (id j : String)
    → lookup j (clear_call s id (lookup id s.calls)).calls
      ≡ (if id == j then none else lookup j s.calls)
unfolding clear_call
clear_call-lookup s id j = elim (Option-cases (lookup id s.calls)) [
  | inl e ↦ rw (e, clear_call) (ground (arith, eq_iff id j))
  | inr (c, e) ↦ rw (e, clear_call) (lookup-erase id j s.calls)
]

dismiss_meeting-lookup :
    (s : ActiveMeetingsState) (id j : String)
    → lookup j (dismiss_meeting s id (lookup id s.meetings)).meetings ≡ (
        if id == j then Option.map dismissed_meeting (lookup j s.meetings) else lookup j s.meetings)
unfolding dismiss_meeting
dismiss_meeting-lookup s id j = elim (Option-cases (lookup id s.meetings)) [
  | inl e ↦ rw (e, dismiss_meeting) (ground (arith, eq_iff id j))
  | inr (c, e) ↦
      rw (e, dismiss_meeting)
        (ground (arith, eq_iff id j, lookup-insert id j (dismissed_meeting c) s.meetings))
]

end_meeting-lookup :
    (s : ActiveMeetingsState) (id j : String)
    → lookup j (end_meeting s id (lookup id s.meetings)).meetings
      ≡ (if id == j then none else lookup j s.meetings)
unfolding end_meeting
end_meeting-lookup s id j = elim (Option-cases (lookup id s.meetings)) [
  | inl e ↦ rw (e, end_meeting) (ground (arith, eq_iff id j))
  | inr (c, e) ↦ rw (e, end_meeting) (lookup-erase id j s.meetings)
]

-- A ring is stored undismissed whatever stood there, a dismissal marks the call of its channel, a clear removes
-- it, a reset removes all, and no action touches the call of another channel.
pub incoming_calls-call :
    (s : IncomingCallsState) (a : Action) (j : String)
    → lookup j (incoming_calls_reducer s a).calls ≡ call_step (λ k. lookup k s.calls) a j
unfolding incoming_calls_reducer
incoming_calls-call s (incoming_call_received c) j =
    lookup-insert c.channel_id j (fresh_call c) s.calls
incoming_calls-call s (incoming_call_dismissed id) j = dismiss_call-lookup s id j
incoming_calls-call s (incoming_call_cleared id) j = clear_call-lookup s id j
incoming_calls-call s incoming_calls_reset j = refl
incoming_calls-call s _ j = refl

-- A start stores its meeting undismissed whatever stood there, an end removes the meeting of its
-- channel, a dismissal marks it, and no action touches the meeting of another channel.
pub active_meetings-meeting :
    (s : ActiveMeetingsState) (a : Action) (j : String)
    → lookup j (active_meetings_reducer s a).meetings ≡ meeting_step (λ k. lookup k s.meetings) a j
unfolding active_meetings_reducer
active_meetings-meeting s (active_meeting_started am) j =
    lookup-insert am.channel_id j (fresh_meeting am) s.meetings
active_meetings-meeting s (active_meeting_ended id) j = end_meeting-lookup s id j
active_meetings-meeting s (active_meeting_dismissed id) j = dismiss_meeting-lookup s id j
active_meetings-meeting s _ j = refl

-- Clearing a call takes one away, or changes nothing.
pub cleared-fewer :
    (s : IncomingCallsState) (id : String)
    → (size (incoming_calls_reducer s (incoming_call_cleared id)).calls < size s.calls)
      ⊎ (incoming_calls_reducer s (incoming_call_cleared id) ≡ s)
unfolding incoming_calls_reducer clear_call
cleared-fewer s id = elim (Option-cases (lookup id s.calls)) [
  | inl none_there ↦ inr (rw none_there refl)
  | inr (c, e) ↦ inl (rw e (size-erase-lookup id c s.calls e))
]
