-- ===== src/Signaling/Room/Keeps.antt =====
-- What a frame handler leaves alone in a room, and how it settles the join.
use mattermost_plugin_openta.Base.{
  ℕ, String, suc, ◌+◌, ◌≡◌, refl, ◌∙◌, Bool, true, false, Option, none, some, List, [], ◌∷◌, arith,
  Bool-cases, inl, inr, truthy_option,
}
use mattermost_plugin_openta.Signaling.Value.{Value, bool, str}
use mattermost_plugin_openta.Signaling.RoomState.{
  Room, Participant, Credentials, RoomEvent, RoomError, closed_event, connected, Effect, emitted,
  join_resolved, join_rejected, emit, is_joined, is_connected,
}
use mattermost_plugin_openta.Signaling.Messages.{
  Handled, done, thrown_at, Incoming, handle, on_joined, on_left, on_hand, on_update,
  on_credentials, change_role, fail_if_connecting, emit_hand, emit_credentials, enter, hand_of,
  update_hand, update_role, apply_update, join_success, joined, left, hand_up, hand_down, update,
  role_change, moderator_granted, moderator_revoked, blocked, control_failed, credentials_sent,
  muted_by_force, hand_reset, moderation_failed, in_waiting_room, hands_enabled, hands_disabled,
  unhandled,
}

-- How often `closed` was emitted, and how often a join was settled.
abbrev pub closings : List Effect → ℕ
closings [] = 0
closings (emitted (closed_event code rec) ∷ es) = suc (closings es)
closings (_ ∷ es) = closings es

abbrev pub settlements : List Effect → ℕ
settlements [] = 0
settlements (join_resolved ∷ es) = suc (settlements es)
settlements (join_rejected f ∷ es) = suc (settlements es)
settlements (_ ∷ es) = settlements es

abbrev pub one_if : Bool → ℕ
one_if true = 1
one_if false = 0

-- A join that waits may be settled; nothing else of the life cycle changes, nor the storage.
pub record Keeps (r q : Room) : Type 0 where
  pub state : q.state ≡ r.state
  pub closed_emitted : q.closed_emitted ≡ r.closed_emitted
  pub ticket_pending : q.ticket_pending ≡ r.ticket_pending
  pub has_socket : q.has_socket ≡ r.has_socket
  pub bound : q.bound ≡ r.bound
  pub closings_same : closings q.log ≡ closings r.log
  pub settles : settlements q.log + one_if q.waiting ≡ settlements r.log + one_if r.waiting
  pub waits : q.waiting ≡ true → r.waiting ≡ true
  pub storage : q.storage ≡ r.storage

pub Keeps-refl : (r : Room) → Keeps r r
Keeps-refl r = record {
  state = refl;
  closed_emitted = refl;
  ticket_pending = refl;
  has_socket = refl;
  bound = refl;
  closings_same = refl;
  settles = refl;
  waits = λ h. h;
  storage = refl;
}

pub Keeps-trans : (r q t : Room) → Keeps r q → Keeps q t → Keeps r t
Keeps-trans r q t k l = record {
  state = l.state ∙ k.state;
  closed_emitted = l.closed_emitted ∙ k.closed_emitted;
  ticket_pending = l.ticket_pending ∙ k.ticket_pending;
  has_socket = l.has_socket ∙ k.has_socket;
  bound = l.bound ∙ k.bound;
  closings_same = l.closings_same ∙ k.closings_same;
  settles = l.settles ∙ k.settles;
  waits = λ h. k.waits (l.waits h);
  storage = l.storage ∙ k.storage;
}

abbrev pub is_closing : RoomEvent → Bool
is_closing (closed_event code rec) = true
is_closing _ = false

pub emit-Keeps : (e : RoomEvent) (r : Room) → is_closing e ≡ false → Keeps r (emit e r)
unfolding emit
emit-Keeps e r h = ground arith

-- The list of participants, and an event after its change.
list-Keeps :
    (ps : List Participant) (e : RoomEvent) (r : Room)
    → is_closing e ≡ false
    → Keeps r (emit e (record r { participants = ps }))
list-Keeps ps e r h =
    Keeps-trans r (record r { participants = ps }) _
      (record {
        state = refl;
        closed_emitted = refl;
        ticket_pending = refl;
        has_socket = refl;
        bound = refl;
        closings_same = refl;
        settles = refl;
        waits = λ w. w;
        storage = refl;
      })
      (emit-Keeps e _ h)

emit_hand-Keeps : (up : Bool) (id : Option String) (r : Room) → Keeps r (emit_hand up id r)
emit_hand-Keeps up id r = elim (Bool-cases (truthy_option id)) [
  | inl named ↦ hand up named
  | inr unnamed ↦ still up unnamed
]
  where
    hand : (up : Bool) → truthy_option id ≡ true → Keeps r (emit_hand up id r)
    hand true h = rw h (emit-Keeps _ r refl)
    hand false h = rw h (emit-Keeps _ r refl)

    still : (up : Bool) → truthy_option id ≡ false → Keeps r (emit_hand up id r)
    still true h = rw h (Keeps-refl r)
    still false h = rw h (Keeps-refl r)

change_role-Keeps : (id role : Option String) (r : Room) → Keeps r (change_role id role r)
unfolding change_role
change_role-Keeps id role r = list-Keeps _ _ r refl

emit_credentials-Keeps : (c : Option Credentials) (r : Room) → Keeps r (emit_credentials c r)
emit_credentials-Keeps none r = Keeps-refl r
emit_credentials-Keeps (some c) r = emit-Keeps _ r refl

fail-Keeps : (e : RoomError) (r : Room) → Keeps r (fail_if_connecting e r)
unfolding fail_if_connecting
fail-Keeps e r = elim (Bool-cases (is_joined r.state)) [
  | inl j ↦ rw j (Keeps-refl r)
  | inr n ↦ rw n (emit-Keeps _ r refl)
]

on_joined-Keeps : (v : Value) (r : Room) → Keeps r (on_joined v r)
unfolding on_joined
on_joined-Keeps v r = elim (Bool-cases (is_joined r.state)) [
  | inl j ↦ rw j (list-Keeps _ _ r refl)
  | inr n ↦ rw n (Keeps-refl r)
]

on_left-Keeps : (v : Value) (r : Room) → Keeps r (on_left v r)
unfolding on_left
on_left-Keeps v r = elim (Bool-cases (is_joined r.state)) [
  | inl j ↦ rw j (list-Keeps _ _ r refl)
  | inr n ↦ rw n (Keeps-refl r)
]

update_hand-Keeps : (v : Value) (id : Option String) (r : Room) → Keeps r (update_hand v id r)
update_hand-Keeps (bool up) id r = emit_hand-Keeps up id r
update_hand-Keeps _ id r = Keeps-refl r

update_role-Keeps : (v : Value) (id : Option String) (r : Room) → Keeps r (update_role v id r)
update_role-Keeps (str role) id r = elim (Bool-cases (truthy_option id)) [
  | inl named ↦ rw named (change_role-Keeps id (some role) r)
  | inr unnamed ↦ rw unnamed (Keeps-refl r)
]
update_role-Keeps _ id r = Keeps-refl r

apply_update-Keeps :
    (hand role : Value) (id : Option String) (r : Room) → Keeps r (apply_update hand role id r)
unfolding apply_update
apply_update-Keeps hand role id r =
    Keeps-trans r (update_hand hand id r) _ (update_hand-Keeps hand id r)
      (update_role-Keeps role id (update_hand hand id r))

on_update-Keeps : (v : Value) (r : Room) → Keeps r (on_update v r)
unfolding on_update
on_update-Keeps v r = elim (Bool-cases (is_joined r.state)) [
  | inl j ↦ rw j (apply_update-Keeps _ _ _ r)
  | inr n ↦ rw n (Keeps-refl r)
]

abbrev pub room_of : Handled → Room
room_of (done r) = r
room_of (thrown_at r) = r

abbrev pub is_join : Incoming → Bool
is_join join_success = true
is_join _ = false

-- No frame but `joinSuccess` changes the life cycle.
pub handle-Keeps :
    (i : Incoming) (v : Value) (r : Room) → is_join i ≡ false → Keeps r (room_of (handle i v r))
unfolding handle on_hand on_credentials
handle-Keeps joined v r h = on_joined-Keeps v r
handle-Keeps join_success v r h = cc
handle-Keeps left v r h = on_left-Keeps v r
handle-Keeps hand_up v r h = emit_hand-Keeps true (hand_of v r) r
handle-Keeps hand_down v r h = emit_hand-Keeps false (hand_of v r) r
handle-Keeps update v r h = on_update-Keeps v r
handle-Keeps role_change v r h = change_role-Keeps _ _ r
handle-Keeps moderator_granted v r h = change_role-Keeps _ _ r
handle-Keeps moderator_revoked v r h = change_role-Keeps _ _ r
handle-Keeps blocked v r h = fail-Keeps _ r
handle-Keeps control_failed v r h = fail-Keeps _ r
handle-Keeps credentials_sent v r h = emit_credentials-Keeps _ r
handle-Keeps muted_by_force v r h = emit-Keeps _ r refl
handle-Keeps hand_reset v r h = emit-Keeps _ r refl
handle-Keeps moderation_failed v r h = fail-Keeps _ r
handle-Keeps in_waiting_room v r h = fail-Keeps _ r
handle-Keeps hands_enabled v r h = emit-Keeps _ r refl
handle-Keeps hands_disabled v r h = emit-Keeps _ r refl
handle-Keeps unhandled v r h = Keeps-refl r

-- What an accepted join does to the life cycle.
pub record Enters (r q : Room) : Type 0 where
  pub state : q.state ≡ is_connected
  pub closed_emitted : q.closed_emitted ≡ r.closed_emitted
  pub ticket_pending : q.ticket_pending ≡ r.ticket_pending
  pub has_socket : q.has_socket ≡ r.has_socket
  pub bound : q.bound ≡ r.bound
  pub closings_same : closings q.log ≡ closings r.log
  pub settles : settlements q.log ≡ settlements r.log + one_if r.waiting
  pub waits : q.waiting ≡ false
  pub storage : q.storage ≡ r.storage

Enters-Keeps : (r q t : Room) → Enters r q → Keeps q t → Enters r t
Enters-Keeps r q t k l = record {
  state = l.state ∙ k.state;
  closed_emitted = l.closed_emitted ∙ k.closed_emitted;
  ticket_pending = l.ticket_pending ∙ k.ticket_pending;
  has_socket = l.has_socket ∙ k.has_socket;
  bound = l.bound ∙ k.bound;
  closings_same = l.closings_same ∙ k.closings_same;
  settles = ground (arith, l.settles, k.settles, k.waits, l.waits);
  waits = ground (arith, k.waits, l.waits);
  storage = l.storage ∙ k.storage;
}

connected-Enters :
    (ps : List Participant) (id : Option String) (lk : Option Credentials) (host : Bool) (r : Room)
    → Enters r (
        emit
          (connected ps lk host)
          (record r { participants = ps; local_id = id; state = is_connected }))
unfolding emit
connected-Enters ps id lk host r = ground arith

pub enter-Enters : (v : Value) (others : List Participant) (r : Room) → Enters r (enter v others r)
enter-Enters v others r =
    Enters-Keeps r _ _ (connected-Enters _ _ _ _ r) (emit_credentials-Keeps _ _)
