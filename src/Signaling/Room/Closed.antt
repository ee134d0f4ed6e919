-- ===== src/Signaling/Room/Closed.antt =====
-- A closed room stays closed.
use mattermost_plugin_openta.Base.{
  ◌≡◌, refl, ◌∙◌, ap, ℕ, Bool, true, false, Option, none, some, if◌then◌else◌, arith, Bool-cases,
  inl, inr,
}
use mattermost_plugin_openta.Signaling.Value.{Value, obj}
use mattermost_plugin_openta.Signaling.Wire.{Frame, normalize}
use mattermost_plugin_openta.Signaling.RoomState.{
  Room, RoomStatus, RoomError, thrown, emit, emit_closed, is_closed, is_connecting,
}
use mattermost_plugin_openta.Signaling.Messages.{
  Incoming, Handled, done, thrown_at, classify, handle, join_success, on_join_success,
}
use mattermost_plugin_openta.Signaling.Room.{
  Input, connects, ticket, no_ticket, opened, message, closes, errs, leaves, drops, commands,
  connect, on_ticket, on_ticket_failed, on_open, on_close, on_error, on_message, leave,
  mark_unexpected_drop, command, step, after, receive,
}
use mattermost_plugin_openta.Signaling.Room.Keeps.{emit-Keeps, handle-Keeps, is_join, room_of}

abbrev Shut : Room → Type 0
Shut r = is_closed r.state ≡ true

on_error-Shut : (e : Option RoomError) (r : Room) → Shut r → Shut (on_error e r)
unfolding on_error
on_error-Shut none r c = ap is_closed (emit-Keeps _ r refl).state ∙ c
on_error-Shut (some e) r c = ap is_closed (emit-Keeps _ r refl).state ∙ c

after-Shut : (h : Handled) → Shut (room_of h) → Shut (after h)
after-Shut (done r) c = c
after-Shut (thrown_at r) c = on_error-Shut (some thrown) r c

closed-not_connecting : (s : RoomStatus) → is_closed s ≡ true → is_connecting s ≡ false
closed-not_connecting s c = ground arith

late-join : (v : Value) (r : Room) → Shut r → on_join_success v r ≡ done r
unfolding on_join_success
late-join v r c = rw (closed-not_connecting r.state c)

handle-Shut : (i : Incoming) (v : Value) (r : Room) → Shut r → Shut (after (handle i v r))
handle-Shut i v r c = elim (Bool-cases (is_join i)) [
  | inl j ↦ join i j
  | inr other ↦ after-Shut (handle i v r) (ap is_closed (handle-Keeps i v r other).state ∙ c)
]
  where
    join : (i : Incoming) → is_join i ≡ true → Shut (after (handle i v r))
    join join_success j = unfold handle in (rw (late-join v r c) c)
    join _ j = ground arith

receive-Shut : (o : Option Frame) (r : Room) → Shut r → Shut (receive o r)
receive-Shut none r c = c
receive-Shut (some f) r c = handle-Shut (classify f.namespace f.action) (obj f.rest) r c

guard-Shut : (b : Bool) (q r : Room) → Shut q → Shut r → Shut (if b then q else r)
guard-Shut true q r a c = a
guard-Shut false q r a c = c

leave-Shut : (r : Room) → Shut (leave r)
unfolding leave emit_closed emit
leave-Shut r = ground arith

on_close-Shut : (code : Option ℕ) (r : Room) → Shut (on_close code r)
unfolding on_close emit_closed emit
on_close-Shut code r = ground arith

-- A closed room stays closed under every input: no late ticket, no late `joinSuccess` and no further
-- `connect` opens it again.
pub step-closed :
    (i : Input) (r : Room) → is_closed r.state ≡ true → is_closed (step i r).state ≡ true
unfolding step
step-closed (connects a b d e) r c = unfold connect in (ground arith)
step-closed (ticket t resumption url) r c =
    guard-Shut r.ticket_pending _ r (unfold on_ticket in (ground arith)) c
step-closed no_ticket r c =
    guard-Shut r.ticket_pending _ r (unfold on_ticket_failed in (ground arith)) c
step-closed opened r c = guard-Shut r.has_socket _ r (unfold on_open in c) c
step-closed (message m) r c =
    guard-Shut r.has_socket (on_message m r) r
      (unfold on_message in (guard-Shut r.bound _ r (receive-Shut (normalize m) r c) c)) c
step-closed (closes code) r c = guard-Shut r.has_socket _ r (on_close-Shut code r) c
step-closed (errs e) r c = guard-Shut r.has_socket _ r (on_error-Shut e r c) c
step-closed leaves r c = leave-Shut r
step-closed drops r c = unfold mark_unexpected_drop in c
step-closed (commands x) r c = unfold command in (ground arith)
