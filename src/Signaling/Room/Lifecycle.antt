-- ===== src/Signaling/Room/Lifecycle.antt =====
-- The life cycle of a room over any sequence of calls, ticket results and socket events.
use mattermost_plugin_openta.Base.{
  ℕ, String, suc, ◌+◌, ◌≡◌, refl, subst, Bool, true, false, Option, none, some, List, [], ◌∷◌, ◌||◌,
  if◌then◌else◌, arith, Bool-cases, inl, inr,
}
use native.Mathlib.Nat.{zero-add}
use mattermost_plugin_openta.Signaling.Value.{Value, obj, get}
use mattermost_plugin_openta.Signaling.Wire.{Frame, normalize}
use mattermost_plugin_openta.Signaling.RoomState.{
  Room, Participant, RoomError, thrown, Storage, new_room, emit_closed, is_authenticating,
  is_connecting, is_joined, is_closed, closed,
}
use mattermost_plugin_openta.Signaling.Messages.{
  Incoming, Handled, done, thrown_at, classify, handle, join_success, on_join_success, others_of,
  joined_with, store_resumption, thrown_at,
}
use mattermost_plugin_openta.Signaling.Room.{
  Input, connects, ticket, no_ticket, opened, message, closes, errs, leaves, drops, commands,
  connect, on_ticket, on_ticket_failed, on_open, on_close, on_error, on_message, leave,
  mark_unexpected_drop, command, Command, step, run, after, receive, hang_up, forget_token,
}
use mattermost_plugin_openta.Signaling.Room.Keeps.{
  closings, settlements, one_if, Keeps, emit-Keeps, handle-Keeps, is_join, room_of, Enters,
  enter-Enters,
}

-- What holds of a room between two inputs.
pub record Inv (r : Room) : Type 0 where
  -- `closed` has been emitted, and once, exactly in the closed state
  pub closed_known : r.closed_emitted ≡ is_closed r.state
  pub closed_once : closings r.log ≡ one_if (is_closed r.state)
  -- a ticket is under way exactly while authenticating, or after a close in that time
  pub asked : r.ticket_pending ≡ true → (is_authenticating r.state || is_closed r.state) ≡ true
  pub asks : is_authenticating r.state ≡ true → r.ticket_pending ≡ true
  -- `connect` waits for an event only in a connecting room,
  pub waits : r.waiting ≡ true → is_connecting r.state ≡ true
  -- which has a socket with a listener, as a joined room has
  pub socket : (is_connecting r.state || is_joined r.state) ≡ true → r.has_socket ≡ true
  pub listening : (is_connecting r.state || is_joined r.state) ≡ true → r.bound ≡ true

-- Every call of `connect` has settled or is under way.
abbrev pub Balanced : ℕ → Room → Type 0
Balanced calls r = settlements r.log + one_if r.waiting + one_if r.ticket_pending ≡ calls

abbrev pub is_connect : Input → Bool
is_connect (connects a b c d) = true
is_connect _ = false

new_room-Inv : (s : Storage) → Inv (new_room s) × Balanced 0 (new_room s)
unfolding new_room
new_room-Inv s = ground arith

Keeps-Inv : (r q : Room) → Keeps r q → Inv r → Inv q
Keeps-Inv r q k v = ground (arith, k.waits)

Enters-Inv : (r q : Room) → is_connecting r.state ≡ true → Enters r q → Inv r → Inv q
Enters-Inv r q c e v = ground arith

abbrev Fine : ℕ → Room → Type 0
Fine calls r = Inv r × Balanced calls r

Keeps-Fine : (n : ℕ) (r q : Room) → Keeps r q → Fine n r → Fine n q
Keeps-Fine n r q k v = (Keeps-Inv r q k v.0, ground arith)

Enters-Fine : (n : ℕ) (r q : Room) → is_connecting r.state ≡ true → Enters r q → Fine n r → Fine n q
Enters-Fine n r q c e v = (Enters-Inv r q c e v.0, ground arith)

connect-Fine : (n : ℕ) (a b c d : String) (r : Room) → Fine n r → Fine (suc n) (connect a b c d r)
unfolding connect
connect-Fine n a b c d r v = ground arith

on_ticket-Fine :
    (n : ℕ) (a b c d : String) (r : Room)
    → r.ticket_pending ≡ true
    → Fine n r
    → Fine n (on_ticket a b c d r)
unfolding on_ticket
on_ticket-Fine n a b c d r p v = ground arith

on_ticket_failed-Fine :
    (n : ℕ) (r : Room) → r.ticket_pending ≡ true → Fine n r → Fine n (on_ticket_failed r)
unfolding on_ticket_failed
on_ticket_failed-Fine n r p v = ground arith

on_open-Fine : (n : ℕ) (r : Room) → Fine n r → Fine n (on_open r)
unfolding on_open
on_open-Fine n r v = ground arith

on_close-Fine : (n : ℕ) (code : Option ℕ) (r : Room) → Fine n r → Fine n (on_close code r)
unfolding on_close emit_closed
on_close-Fine n code r v = ground arith

on_error-Fine : (n : ℕ) (e : Option RoomError) (r : Room) → Fine n r → Fine n (on_error e r)
unfolding on_error
on_error-Fine n none r v = Keeps-Fine n r _ (emit-Keeps _ r refl) v
on_error-Fine n (some e) r v = Keeps-Fine n r _ (emit-Keeps _ r refl) v

-- A room on its way to `closed`: only the state, the listener, the token and the socket's close are
-- new.
record Closing (r q : Room) : Type 0 where
  state : q.state ≡ closed
  closed_emitted : q.closed_emitted ≡ r.closed_emitted
  ticket_pending : q.ticket_pending ≡ r.ticket_pending
  waiting : q.waiting ≡ r.waiting
  closings_same : closings q.log ≡ closings r.log
  settles : settlements q.log ≡ settlements r.log

Closing-Fine :
    (n code : ℕ) (rec : Bool) (r q : Room)
    → Closing r q
    → Fine n r
    → Fine n (emit_closed code rec q)
unfolding emit_closed
Closing-Fine n code rec r q c v = ground arith

abbrev hung : Room → Room
hung r = record (hang_up (record r { join_cancelled = true })) { state = closed; bound = false }

hung-Closing : (r : Room) → Closing r (hung r)
hung-Closing r = ground arith

forget-Closing : (r q : Room) → Closing r q → Closing r (forget_token q)
forget-Closing r q c = ground arith

leave-Fine : (n : ℕ) (r : Room) → Fine n r → Fine n (leave r)
unfolding leave
leave-Fine n r v = elim (Bool-cases (is_joined r.state)) [
  | inl j ↦ simp j (Closing-Fine n 1000 false r _ (forget-Closing r (hung r) (hung-Closing r)) v)
  | inr u ↦ simp u (Closing-Fine n 1000 false r (hung r) (hung-Closing r) v)
]

drop-Fine : (n : ℕ) (r : Room) → Fine n r → Fine n (mark_unexpected_drop r)
unfolding mark_unexpected_drop
drop-Fine n r v = ground arith

command-Fine : (n : ℕ) (c : Command) (r : Room) → Fine n r → Fine n (command c r)
unfolding command
command-Fine n c r v = ground arith

stored-Fine : (n : ℕ) (r : Room) → Fine n r → Fine n (store_resumption r)
stored-Fine n r f = ground arith

stored-connecting :
    (r : Room) → is_connecting r.state ≡ true → is_connecting (store_resumption r).state ≡ true
stored-connecting r c = ground arith

join-Fine : (n : ℕ) (v : Value) (r : Room) → Fine n r → Fine n (after (on_join_success v r))
unfolding on_join_success
join-Fine n v r f = elim (Bool-cases (is_connecting r.state)) [
  | inl c ↦ rw c (go (others_of (get "participants" v)) c)
  | inr elsewhere ↦ rw elsewhere f
]
  where
    go :
        (o : Option (List Participant))
        → is_connecting r.state ≡ true
        → Fine n (after (joined_with v o (store_resumption r)))
    go none c = on_error-Fine n (some thrown) _ (stored-Fine n r f)
    go (some others) c =
        Enters-Fine n (store_resumption r) _ (stored-connecting r c)
          (enter-Enters v others (store_resumption r)) (stored-Fine n r f)

after-Fine : (n : ℕ) (h : Handled) → Fine n (room_of h) → Fine n (after h)
after-Fine n (done r) v = v
after-Fine n (thrown_at r) v = on_error-Fine n (some thrown) r v

handle-Fine :
    (n : ℕ) (i : Incoming) (v : Value) (r : Room) → Fine n r → Fine n (after (handle i v r))
handle-Fine n i v r f = elim (Bool-cases (is_join i)) [
  | inl j ↦ join i j
  | inr other ↦ after-Fine n (handle i v r) (Keeps-Fine n r _ (handle-Keeps i v r other) f)
]
  where
    join : (i : Incoming) → is_join i ≡ true → Fine n (after (handle i v r))
    join join_success j = unfold handle in (join-Fine n v r f)
    join _ j = ground arith

receive-Fine : (n : ℕ) (o : Option Frame) (r : Room) → Fine n r → Fine n (receive o r)
receive-Fine n none r v = v
receive-Fine n (some f) r v = handle-Fine n (classify f.namespace f.action) (obj f.rest) r v

on_message-Fine : (n : ℕ) (v : Value) (r : Room) → Fine n r → Fine n (on_message v r)
unfolding on_message
on_message-Fine n v r f = elim (Bool-cases r.bound) [
  | inl b ↦ simp b (receive-Fine n (normalize v) r f)
  | inr u ↦ simp u f
]

-- The inputs that call `connect`.
abbrev pub calls : List Input → ℕ
calls [] = 0
calls (i ∷ is) = one_if (is_connect i) + calls is

guard-Fine :
    (n : ℕ) (b : Bool) (q r : Room) → (b ≡ true → Fine n q) → Fine n r → Fine n (if b then q else r)
guard-Fine n true q r f v = f refl
guard-Fine n false q r f v = v

step-Fine : (n : ℕ) (i : Input) (r : Room) → Fine n r → Fine (one_if (is_connect i) + n) (step i r)
unfolding step
step-Fine n (connects a b c d) r v =
    subst (λ k. Fine k (connect a b c d r)) (omega arith) (connect-Fine n a b c d r v)
step-Fine n (ticket t resumption url) r v =
    rw zero-add
      (guard-Fine n r.ticket_pending _ r (λ p. on_ticket-Fine n "" t resumption url r p v) v)
step-Fine n no_ticket r v =
    rw zero-add (guard-Fine n r.ticket_pending _ r (λ p. on_ticket_failed-Fine n r p v) v)
step-Fine n opened r v = rw zero-add (guard-Fine n r.has_socket _ r (λ p. on_open-Fine n r v) v)
step-Fine n (message m) r v =
    rw zero-add (guard-Fine n r.has_socket _ r (λ p. on_message-Fine n m r v) v)
step-Fine n (closes code) r v =
    rw zero-add (guard-Fine n r.has_socket _ r (λ p. on_close-Fine n code r v) v)
step-Fine n (errs e) r v =
    rw zero-add (guard-Fine n r.has_socket _ r (λ p. on_error-Fine n e r v) v)
step-Fine n leaves r v = rw zero-add (leave-Fine n r v)
step-Fine n drops r v = rw zero-add (drop-Fine n r v)
step-Fine n (commands c) r v = rw zero-add (command-Fine n c r v)

run-Fine : (n : ℕ) (is : List Input) (r : Room) → Fine n r → Fine (calls is + n) (run is r)
unfolding run
run-Fine n [] r v = rw zero-add v
run-Fine n (i ∷ is) r v =
    subst (λ k. Fine k (run is (step i r))) (omega arith)
      (run-Fine (one_if (is_connect i) + n) is (step i r) (step-Fine n i r v))

-- After any sequence of inputs a room that began idle satisfies the invariant of its life cycle:
-- `closed` is emitted once in a closed room and never in another, a ticket is under way while
-- authenticating and else only after a close, `connect` waits for an event only while connecting, and
-- a connecting or joined room has a socket and a listener.
pub run-Inv : (s : Storage) (is : List Input) → Inv (run is (new_room s))
run-Inv s is = (run-Fine 0 is (new_room s) (new_room-Inv s)).0

-- After any sequence of inputs to a room that began idle, the calls of `connect` that have settled,
-- the one that waits for the join and the one that waits for its ticket are together the calls made:
-- no call settles twice and none is lost.
pub run-Balanced : (s : Storage) (is : List Input) → Balanced (calls is) (run is (new_room s))
run-Balanced s is = omega (arith, (run-Fine 0 is (new_room s) (new_room-Inv s)).1)

-- If a room that began idle is closed and no ticket request is under way, every call of `connect` has
-- settled, each once.
pub closed-settled :
    (s : Storage) (is : List Input)
    → is_closed (run is (new_room s)).state ≡ true
    → (run is (new_room s)).ticket_pending ≡ false
    → settlements (run is (new_room s)).log ≡ calls is
closed-settled s is c p = waited (run is (new_room s)) c p (run-Inv s is) (run-Balanced s is)
  where
    waited :
        (r : Room)
        → is_closed r.state ≡ true
        → r.ticket_pending ≡ false
        → Inv r
        → Balanced (calls is) r
        → settlements r.log ≡ calls is
    waited r c p v b = ground arith
