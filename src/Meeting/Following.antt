-- ===== src/Meeting/Following.antt =====
-- The store follows the room: every frame of a joined room keeps the two lists the same.
use mattermost_plugin_openta.Base.{
  ℕ, String, ◌≡◌, refl, sym, subst, Bool, true, false, Option, none, some, [], is_some,
  if◌then◌else◌, truthy_option,
}
use mattermost_plugin_openta.Store.Action.{Action, Role}
use mattermost_plugin_openta.Signaling.Value.{Value, bool, str, text, get, ◌or_else◌}
use mattermost_plugin_openta.Signaling.RoomState.{
  Room, Credentials, RoomError, RoomStatus, is_connected, is_connecting, is_joined, emit,
}
use mattermost_plugin_openta.Signaling.Messages.{
  hand_of, Handled, done, thrown_at, handle, Incoming, join_success, joined, left, hand_up,
  hand_down, update, role_change, moderator_granted, moderator_revoked, blocked, control_failed,
  credentials_sent, muted_by_force, hand_reset, moderation_failed, in_waiting_room, hands_enabled,
  hands_disabled, unhandled, on_join_success, apply_update, set_roles, normalize_participant,
  on_joined, on_left, change_role, emit_hand, emit_credentials, update_hand, update_role, on_update,
  on_hand, on_credentials, fail_if_connecting,
}
use mattermost_plugin_openta.Controller.State.{Controller}
use mattermost_plugin_openta.Controller.Events.{
  count, on_hand_raised, on_hand_lowered, on_raise_hands_toggled, on_role_updated,
}
use mattermost_plugin_openta.Meeting.{deliver, deliver_all}
use mattermost_plugin_openta.Meeting.Handlers.{
  joined-Lists, left-Lists, role-Lists, credentials-Lists, muted-Lists, plain-Lists,
}
use mattermost_plugin_openta.Meeting.Listed.{Lists, count-set_roles}

-- A joined room with an empty log, whose participants are those of the store.
pub record Starts (w : Controller) (r : Room) : Type 0 where
  pub joined : is_joined r.state ≡ true
  pub fresh : r.log ≡ []
  pub lists : Lists r.participants (count r.participants) w

-- A frame about one participant names it.
abbrev pub names : Incoming → Value → Bool
names joined payload = is_some (normalize_participant payload).id
names left payload = is_some (text (get "id" payload or_else get "participantId" payload))
names _ payload = true

module _ (role_of : Option String → Role) (message_of : RoomError → String) where
  -- A joined room whose participants are those of the store, once the events of its log are delivered.
  pub record Heard (k : ℕ) (w : Controller) (r : Room) : Type 0 where
    pub joined : is_joined r.state ≡ true
    pub lists :
        Lists r.participants
          (count r.participants)
          (deliver_all role_of message_of k (count r.participants) r.log w)

  pub if-Heard :
      {k : ℕ} {w : Controller} (b : Bool) (x y : Room)
      → Heard k w x
      → Heard k w y
      → Heard k w (if b then x else y)
  if-Heard true x y h i = h
  if-Heard false x y h i = i

  hand-Heard :
      (k : ℕ) (up : Bool) (id : Option String) (w : Controller) (r : Room)
      → Heard k w r
      → Heard k w (emit_hand up id r)
  unfolding emit deliver on_hand_raised on_hand_lowered
  hand-Heard k true id w r h =
      if-Heard (truthy_option id) _ r
        (record {
          joined = h.joined;
          lists = plain-Lists _ _ (Action.hand_raised _) _ (refl, refl, tt) h.lists;
        })
        h
  hand-Heard k false id w r h =
      if-Heard (truthy_option id) _ r
        (record {
          joined = h.joined;
          lists = plain-Lists _ _ (Action.hand_lowered _) _ (refl, refl, tt) h.lists;
        })
        h

  role-Heard :
      (k : ℕ) (id role : Option String) (w : Controller) (r : Room)
      → Heard k w r
      → Heard k w (change_role id role r)
  unfolding emit deliver change_role
  role-Heard k id role w r h = record {
    joined = h.joined;
    lists =
        let qs = set_roles id role r.participants in
        subst
          (λ n.
            Lists qs (count qs)
              (on_role_updated id (role_of role) (deliver_all role_of message_of k n r.log w)))
          (sym (count-set_roles id role r.participants))
          (role-Lists id role (role_of role) r.participants _ h.lists);
  }

  pub Starts-Heard : (k : ℕ) (w : Controller) (r : Room) → Starts w r → Heard k w r
  Starts-Heard k w r h = record { joined = h.joined; lists = rw h.fresh h.lists }

  joined-Heard :
      (k : ℕ) (payload : Value) (w : Controller) (r : Room)
      → is_some (normalize_participant payload).id ≡ true
      → Starts w r
      → Heard k w (on_joined payload r)
  unfolding emit deliver on_joined
  joined-Heard k payload w r n h = simp h.joined (record {
    joined = h.joined;
    lists = rw h.fresh (joined-Lists (normalize_participant payload) r.participants w n h.lists);
  })

  left-Heard :
      (k : ℕ) (payload : Value) (w : Controller) (r : Room)
      → is_some (text (get "id" payload or_else get "participantId" payload)) ≡ true
      → Starts w r
      → Heard k w (on_left payload r)
  unfolding emit deliver on_left
  left-Heard k payload w r n h =
      simp h.joined
        (record { joined = h.joined; lists = rw h.fresh (left-Lists _ r.participants w n h.lists) })

  update_hand-Heard :
      (k : ℕ) (hand : Value) (id : Option String) (w : Controller) (r : Room)
      → Heard k w r
      → Heard k w (update_hand hand id r)
  update_hand-Heard k (bool up) id w r h = hand-Heard k up id w r h
  update_hand-Heard k _ id w r h = h

  update_role-Heard :
      (k : ℕ) (role : Value) (id : Option String) (w : Controller) (r : Room)
      → Heard k w r
      → Heard k w (update_role role id r)
  update_role-Heard k (str role) id w r h =
      if-Heard (truthy_option id) _ r (role-Heard k id (some role) w r h) h
  update_role-Heard k _ id w r h = h

  applied-Heard :
      (k : ℕ) (hand role : Value) (id : Option String) (w : Controller) (r : Room)
      → Heard k w r
      → Heard k w (apply_update hand role id r)
  unfolding apply_update
  applied-Heard k hand role id w r h =
      update_role-Heard k role id w _ (update_hand-Heard k hand id w r h)

  update-Heard :
      (k : ℕ) (payload : Value) (w : Controller) (r : Room)
      → Heard k w r
      → Heard k w (on_update payload r)
  unfolding on_update
  update-Heard k payload w r h = if-Heard (is_joined r.state) _ r (applied-Heard k _ _ _ w r h) h

  pub credentials-Heard :
      (k : ℕ) (c : Option Credentials) (w : Controller) (r : Room)
      → Heard k w r
      → Heard k w (emit_credentials c r)
  unfolding emit deliver
  credentials-Heard k none w r h = h
  credentials-Heard k (some c) w r h = record {
    joined = h.joined;
    lists = credentials-Lists k c r.participants _ _ h.lists;
  }

  fail-Heard :
      (k : ℕ) (e : RoomError) (w : Controller) (r : Room)
      → Heard k w r
      → Heard k w (fail_if_connecting e r)
  unfolding fail_if_connecting
  fail-Heard k e w r h = simp h.joined h

  -- A frame was handled without an exception.
  abbrev pub HeardAll : ℕ → Controller → Handled → Type 0
  HeardAll k w (done r) = Heard k w r
  HeardAll k w (thrown_at r) = ⊥

  not_connecting : (s : RoomStatus) → is_joined s ≡ true → is_connecting s ≡ false
  not_connecting is_connected h = refl
  not_connecting _ h = cc

  pub handle-Heard :
      (k : ℕ) (i : Incoming) (payload : Value) (w : Controller) (r : Room)
      → names i payload ≡ true
      → Starts w r
      → HeardAll k w (handle i payload r)
  unfolding handle on_join_success on_credentials on_hand emit deliver on_raise_hands_toggled
      on_hand_lowered
  handle-Heard k join_success payload w r n s =
      simp (not_connecting r.state s.joined) (Starts-Heard k w r s)
  handle-Heard k joined payload w r n s = joined-Heard k payload w r n s
  handle-Heard k left payload w r n s = left-Heard k payload w r n s
  handle-Heard k hand_up payload w r n s =
      hand-Heard k true (hand_of payload r) w r (Starts-Heard k w r s)
  handle-Heard k hand_down payload w r n s =
      hand-Heard k false (hand_of payload r) w r (Starts-Heard k w r s)
  handle-Heard k update payload w r n s = update-Heard k payload w r (Starts-Heard k w r s)
  handle-Heard k role_change payload w r n s = role-Heard k _ _ w r (Starts-Heard k w r s)
  handle-Heard k moderator_granted payload w r n s = role-Heard k _ _ w r (Starts-Heard k w r s)
  handle-Heard k moderator_revoked payload w r n s = role-Heard k _ _ w r (Starts-Heard k w r s)
  handle-Heard k blocked payload w r n s = fail-Heard k _ w r (Starts-Heard k w r s)
  handle-Heard k control_failed payload w r n s = fail-Heard k _ w r (Starts-Heard k w r s)
  handle-Heard k credentials_sent payload w r n s = credentials-Heard k _ w r (Starts-Heard k w r s)
  handle-Heard k muted_by_force payload w r n s =
      let h = Starts-Heard k w r s in
      record { joined = h.joined; lists = muted-Lists r.participants _ _ h.lists }
  handle-Heard k hand_reset payload w r n s =
      let h = Starts-Heard k w r s in
      record {
        joined = h.joined;
        lists = plain-Lists _ _ (Action.hand_lowered _) _ (refl, refl, tt) h.lists;
      }
  handle-Heard k moderation_failed payload w r n s = fail-Heard k _ w r (Starts-Heard k w r s)
  handle-Heard k in_waiting_room payload w r n s = fail-Heard k _ w r (Starts-Heard k w r s)
  handle-Heard k hands_enabled payload w r n s =
      let h = Starts-Heard k w r s in
      record {
        joined = h.joined;
        lists = plain-Lists _ _ (Action.set_raise_hands_enabled true) _ (refl, refl, tt) h.lists;
      }
  handle-Heard k hands_disabled payload w r n s =
      let h = Starts-Heard k w r s in
      record {
        joined = h.joined;
        lists = plain-Lists _ _ (Action.set_raise_hands_enabled false) _ (refl, refl, tt) h.lists;
      }
  handle-Heard k unhandled payload w r n s = Starts-Heard k w r s
