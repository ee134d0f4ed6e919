-- ===== src/Signaling/Room/Silence.antt =====
-- What a room that was left still emits.
use mattermost_plugin_openta.Base.{
  ℕ, suc, ◌≡◌, Bool, true, false, Option, none, some, List, [], ◌∷◌, if◌then◌else◌, arith, String,
  subst,
}
use mattermost_plugin_openta.Signaling.RoomState.{
  Room, RoomError, Effect, emitted, closed_event, error, is_closed, emit, emit_closed, is_joined,
}
use mattermost_plugin_openta.Signaling.Room.{
  Input, connects, ticket, no_ticket, opened, message, closes, errs, leaves, drops, commands,
  connect, on_ticket, on_ticket_failed, on_open, on_close, on_error, on_message, leave,
  mark_unexpected_drop, command, step, run,
}

-- The emitted events other than `closed` and `error`.
abbrev pub arrivals : List Effect → ℕ
arrivals [] = 0
arrivals (emitted (closed_event code rec) ∷ es) = arrivals es
arrivals (emitted (error e) ∷ es) = arrivals es
arrivals (emitted _ ∷ es) = suc (arrivals es)
arrivals (_ ∷ es) = arrivals es

-- A closed room whose listener is disposed of, and which has emitted this many events.
record IsSilent (n : ℕ) (r : Room) : Type 0 where
  shut : is_closed r.state ≡ true
  unbound : r.bound ≡ false
  quiet : arrivals r.log ≡ n

error-IsSilent : (n : ℕ) (e : RoomError) (r : Room) → IsSilent n r → IsSilent n (emit (error e) r)
unfolding emit
error-IsSilent n e r v = ground arith

emit_closed-IsSilent :
    (n code : ℕ) (b : Bool) (r : Room) → IsSilent n r → IsSilent n (emit_closed code b r)
unfolding emit_closed emit
emit_closed-IsSilent n code b r v = ground arith

guard-IsSilent :
    (n : ℕ) (b : Bool) (q r : Room) → IsSilent n q → IsSilent n r → IsSilent n (if b then q else r)
guard-IsSilent n true q r a c = a
guard-IsSilent n false q r a c = c

ticket-IsSilent :
    (n : ℕ) (a b c d : String) (r : Room) → IsSilent n r → IsSilent n (on_ticket a b c d r)
unfolding on_ticket
ticket-IsSilent n a b c d r v = ground arith

no_ticket-IsSilent : (n : ℕ) (r : Room) → IsSilent n r → IsSilent n (on_ticket_failed r)
unfolding on_ticket_failed
no_ticket-IsSilent n r v = ground arith

connect-IsSilent :
    (n : ℕ) (a b c d : String) (r : Room) → IsSilent n r → IsSilent n (connect a b c d r)
unfolding connect
connect-IsSilent n a b c d r v = ground arith

on_error-IsSilent :
    (n : ℕ) (e : Option RoomError) (r : Room) → IsSilent n r → IsSilent n (on_error e r)
unfolding on_error
on_error-IsSilent n none r v = error-IsSilent n _ r v
on_error-IsSilent n (some e) r v = error-IsSilent n e r v

-- A leave silences.
leave-IsSilent : (r : Room) → IsSilent (arrivals r.log) (leave r)
unfolding leave
leave-IsSilent r =
    guard-IsSilent (arrivals r.log) (is_joined r.state) _ _
      (emit_closed-IsSilent _ 1000 false _ (ground arith))
      (emit_closed-IsSilent _ 1000 false _ (ground arith))

step-IsSilent : (n : ℕ) (i : Input) (r : Room) → IsSilent n r → IsSilent n (step i r)
unfolding step
step-IsSilent n (connects a b c d) r v = connect-IsSilent n a b c d r v
step-IsSilent n (ticket t resumption url) r v =
    guard-IsSilent n r.ticket_pending _ r (ticket-IsSilent n "" t resumption url r v) v
step-IsSilent n no_ticket r v = guard-IsSilent n r.ticket_pending _ r (no_ticket-IsSilent n r v) v
step-IsSilent n opened r v = guard-IsSilent n r.has_socket _ r (unfold on_open in (ground arith)) v
step-IsSilent n (message m) r v =
    guard-IsSilent n r.has_socket _ r (unfold on_message in (simp v.unbound v)) v
step-IsSilent n (closes code) r v =
    guard-IsSilent n r.has_socket _ r
      (unfold on_close in (emit_closed-IsSilent n _ _ _ (ground arith))) v
step-IsSilent n (errs e) r v = guard-IsSilent n r.has_socket _ r (on_error-IsSilent n e r v) v
step-IsSilent n leaves r v = subst (λ k. IsSilent k (leave r)) v.quiet (leave-IsSilent r)
step-IsSilent n drops r v = unfold mark_unexpected_drop in (ground arith)
step-IsSilent n (commands c) r v = unfold command in (ground arith)

run-IsSilent : (n : ℕ) (is : List Input) (r : Room) → IsSilent n r → IsSilent n (run is r)
unfolding run
run-IsSilent n [] r v = v
run-IsSilent n (i ∷ is) r v = run-IsSilent n is (step i r) (step-IsSilent n i r v)

-- After a leave, in whatever state it finds the room, no event but `closed` and `error` is emitted
-- any more, whatever tickets, messages, closes, errors and calls follow.
pub leave-silences : (r : Room) (is : List Input) → arrivals (run is (leave r)).log ≡ arrivals r.log
leave-silences r is = (run-IsSilent (arrivals r.log) is (leave r) (leave-IsSilent r)).quiet
