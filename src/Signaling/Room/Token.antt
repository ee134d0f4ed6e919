-- ===== src/Signaling/Room/Token.antt =====
-- The resumption token of a room in the browser's storage.
use mattermost_plugin_openta.Base.{
  String, ap, ◌==◌, lookup, lookup-insert, lookup-erase, ℕ, ◌≡◌, refl, ◌∙◌, Bool, true, false, not,
  ◌&&◌, Option, none, some, List, if◌then◌else◌, arith, Bool-cases, inl, inr, truthy,
}
use mattermost_plugin_openta.Signaling.Value.{Value, obj, get}
use mattermost_plugin_openta.Signaling.Wire.{Frame, normalize}
use mattermost_plugin_openta.Signaling.RoomState.{
  Room, Storage, Participant, RoomError, thrown, is_joined, is_connecting, closed, emit,
  emit_closed, clear_resumption,
}
use mattermost_plugin_openta.Signaling.Messages.{
  Handled, done, thrown_at, Incoming, classify, handle, on_join_success, store_resumption,
  joined_with, others_of, join_success,
}
use mattermost_plugin_openta.Signaling.Room.{
  Input, connects, ticket, no_ticket, opened, message, closes, errs, leaves, drops, commands,
  connect, on_ticket, on_ticket_failed, on_open, on_close, on_error, on_message, leave,
  mark_unexpected_drop, command, step, after, receive, hang_up, forget_token,
}
use mattermost_plugin_openta.Signaling.Room.Keeps.{
  is_join, room_of, emit-Keeps, handle-Keeps, enter-Enters,
}

-- What an input makes of the storage. A joined room that is left drops its token, but for a marked
-- drop; an accepted join stores the token that came with its ticket.
abbrev drops_token : Room → Bool
drops_token r = is_joined r.state && not r.keep_resumption && truthy r.room_id

abbrev after_leave : Room → Storage
after_leave r = if drops_token r then clear_resumption r.storage r.room_id else r.storage

emit_closed-storage : (code : ℕ) (b : Bool) (r : Room) → (emit_closed code b r).storage ≡ r.storage
unfolding emit_closed emit
emit_closed-storage code b r = ground arith

if-storage :
    (b : Bool) (x y : Room) → (if b then x else y).storage ≡ (if b then x.storage else y.storage)
if-storage true x y = refl
if-storage false x y = refl

if-same : (b : Bool) (x y : Room) → x.storage ≡ y.storage → (if b then x else y).storage ≡ y.storage
if-same true x y e = e
if-same false x y e = refl

-- The room that `leave` has hung up.
abbrev gone : Room → Room
gone r = record (hang_up (record r { join_cancelled = true })) { state = closed; bound = false }

gone-same :
    (r : Room)
    → ((gone r).storage ≡ r.storage)
      × ((gone r).keep_resumption ≡ r.keep_resumption)
      × ((gone r).room_id ≡ r.room_id)
gone-same r = elim (Bool-cases r.has_socket) [
  | inl has ↦ simp has (refl, refl, refl)
  | inr without ↦ simp without (refl, refl, refl)
]

forget-storage :
    (r : Room)
    → (forget_token r).storage ≡ (
        if not r.keep_resumption && truthy r.room_id
        then clear_resumption r.storage r.room_id
        else r.storage)
forget-storage r = ground arith

forget-gone :
    (r : Room)
    → (forget_token (gone r)).storage ≡ (
        if not r.keep_resumption && truthy r.room_id
        then clear_resumption r.storage r.room_id
        else r.storage)
forget-gone r =
    forget-storage (gone r) ∙ rw ((gone-same r).0, (gone-same r).1, (gone-same r).2) refl

leave-storage : (r : Room) → (leave r).storage ≡ after_leave r
unfolding leave
leave-storage r =
    if-storage (is_joined r.state) _ _
    ∙ branches (is_joined r.state)
        (emit_closed-storage 1000 false (forget_token (gone r)) ∙ forget-gone r)
        (emit_closed-storage 1000 false (gone r) ∙ (gone-same r).0)
  where
    branches :
        (b : Bool) {x y : Storage}
        → x ≡ (
            if not r.keep_resumption && truthy r.room_id
            then clear_resumption r.storage r.room_id
            else r.storage)
        → y ≡ r.storage
        → (if b then x else y) ≡ (
            if b && not r.keep_resumption && truthy r.room_id
            then clear_resumption r.storage r.room_id
            else r.storage)
    branches true p q = p
    branches false p q = q

error-storage : (e : Option RoomError) (r : Room) → (on_error e r).storage ≡ r.storage
unfolding on_error
error-storage none r = (emit-Keeps _ r refl).storage
error-storage (some e) r = (emit-Keeps _ r refl).storage

after-storage : (h : Handled) → (after h).storage ≡ (room_of h).storage
after-storage (done r) = refl
after-storage (thrown_at r) = error-storage (some thrown) r

-- Whether a message is the server's acceptance of the join.
abbrev is_acceptance : Option Frame → Bool
is_acceptance none = false
is_acceptance (some f) = is_join (classify f.namespace f.action)

abbrev pub accepts : Value → Room → Bool
accepts m r = r.has_socket && r.bound && (is_acceptance (normalize m) && is_connecting r.state)

abbrev storage_after : Input → Room → Storage
storage_after leaves r = after_leave r
storage_after (message m) r = if accepts m r then (store_resumption r).storage else r.storage
storage_after _ r = r.storage

join-storage :
    (v : Value) (r : Room)
    → (after (on_join_success v r)).storage
      ≡ (if is_connecting r.state then (store_resumption r).storage else r.storage)
unfolding on_join_success
join-storage v r = elim (Bool-cases (is_connecting r.state)) [
  | inl c ↦ rw c (go (others_of (get "participants" v)))
  | inr elsewhere ↦ rw elsewhere refl
]
  where
    go :
        (o : Option (List Participant))
        → (after (joined_with v o (store_resumption r))).storage ≡ (store_resumption r).storage
    go none = error-storage (some thrown) (store_resumption r)
    go (some others) = (enter-Enters v others (store_resumption r)).storage

handle-storage :
    (i : Incoming) (v : Value) (r : Room)
    → (after (handle i v r)).storage
      ≡ (if is_join i && is_connecting r.state then (store_resumption r).storage else r.storage)
handle-storage i v r = elim (Bool-cases (is_join i)) [
  | inl j ↦ join i j
  | inr other ↦ simp other (after-storage (handle i v r) ∙ (handle-Keeps i v r other).storage)
]
  where
    join :
        (i : Incoming)
        → is_join i ≡ true
        → (after (handle i v r)).storage
          ≡ (if is_join i && is_connecting r.state then (store_resumption r).storage else r.storage)
    join join_success j = unfold handle in (join-storage v r)
    join _ j = cc

receive-storage :
    (o : Option Frame) (r : Room)
    → (receive o r).storage ≡ (
        if is_acceptance o && is_connecting r.state
        then (store_resumption r).storage
        else r.storage)
receive-storage none r = refl
receive-storage (some f) r = handle-storage (classify f.namespace f.action) (obj f.rest) r

message-storage :
    (m : Value) (r : Room) → (step (message m) r).storage ≡ storage_after (message m) r
unfolding step on_message
message-storage m r =
    guarded r.has_socket r.bound (is_acceptance (normalize m) && is_connecting r.state)
      (receive (normalize m) r) r (store_resumption r).storage (receive-storage (normalize m) r)
  where
    guarded :
        (b c d : Bool) (q r : Room) (t : Storage)
        → q.storage ≡ (if d then t else r.storage)
        → (if b then if c then q else r else r).storage ≡ (if b && c && d then t else r.storage)
    guarded true true d q r t e = e
    guarded true false d q r t e = refl
    guarded false c d q r t e = refl

step-storage : (i : Input) (r : Room) → (step i r).storage ≡ storage_after i r
unfolding step
step-storage (connects a b c d) r = unfold connect in (ground arith)
step-storage (ticket t resumption url) r = unfold on_ticket in (ground arith)
step-storage no_ticket r = unfold on_ticket_failed in (ground arith)
step-storage opened r = unfold on_open in (ground arith)
step-storage (message m) r = message-storage m r
step-storage (closes code) r =
    if-same r.has_socket _ r (unfold on_close in (emit_closed-storage _ _ _))
step-storage (errs e) r = if-same r.has_socket _ r (error-storage e r)
step-storage leaves r = leave-storage r
step-storage drops r = unfold mark_unexpected_drop in refl
step-storage (commands c) r = unfold command in (ground arith)

-- A frame that accepts the join, with a token to store.
abbrev pub stores : Value → Room → Bool
stores m r = r.storage.usable && accepts m r && not (r.rest_resumption == "")

-- A joined room with an id, no drop marked.
abbrev pub forgets : Room → Bool
forgets r = r.storage.usable && is_joined r.state && not r.keep_resumption && not (r.room_id == "")

-- The token of each room after an input.
abbrev pub token_after : Input → Room → String → Option String
token_after (message m) r j =
    if stores m r && (r.room_id == j) then some r.rest_resumption else lookup j r.storage.items
token_after leaves r j = if forgets r && (r.room_id == j) then none else lookup j r.storage.items
token_after _ r j = lookup j r.storage.items

stored_token :
    (m : Value) (r : Room) (j : String)
    → lookup j (storage_after (message m) r).items ≡ token_after (message m) r j
stored_token m r j = ground (arith, lookup-insert r.room_id j r.rest_resumption r.storage.items)

left_token :
    (r : Room) (j : String) → lookup j (storage_after leaves r).items ≡ token_after leaves r j
left_token r j = ground (arith, lookup-erase r.room_id j r.storage.items)

-- What an input makes of the tokens in the browser's storage, room by room: a frame that accepts the
-- join of a connecting room puts the token that came with its ticket under the room's id, if it is not
-- empty; leaving a joined room takes the token under the room's id away, unless an unexpected drop was
-- marked or the id is empty; every other token stays, and so do all with any other input, or where the
-- storage cannot be used.
pub step-token :
    (i : Input) (r : Room) (j : String) → lookup j (step i r).storage.items ≡ token_after i r j
step-token i r j = ap (λ s. lookup j s.items) (step-storage i r) ∙ tokens i
  where
    tokens : (i : Input) → lookup j (storage_after i r).items ≡ token_after i r j
    tokens leaves = left_token r j
    tokens (message m) = stored_token m r j
    tokens (connects a b c d) = refl
    tokens (ticket t resumption url) = refl
    tokens no_ticket = refl
    tokens opened = refl
    tokens (closes code) = refl
    tokens (errs e) = refl
    tokens drops = refl
    tokens (commands c) = refl
