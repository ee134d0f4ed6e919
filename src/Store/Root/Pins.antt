-- ===== src/Store/Root/Pins.antt =====
-- A pinned participant is always one that the participants slice knows.
use mathlib.Core.Path.{fun_ext}
use mattermost_plugin_openta.Base.{
  ℕ, String, ◌≡◌, refl, Bool, true, Option, none, some, List, is_some, eq_iff, arith, option_eq,
  Bool-cases, inl, inr, if◌then◌else◌,
}
use mattermost_plugin_openta.Store.Action.{
  Action, ParticipantInfo, participants_bulk_set, participants_reset, set_pinned_participant,
  participant_removed, participant_added, disconnected, connect_started, connect_error,
  speaking_changed, hand_raised, hand_lowered, participant_media_changed, participant_role_changed,
}
use mattermost_plugin_openta.Store.Participants.Invariant.{IsValid}
use mattermost_plugin_openta.Store.Participants.Updates.{
  roster, Roster, roster_step, reducer-roster, last_with, set_at,
}
use mattermost_plugin_openta.Store.Session.{SessionState, session_reducer}
use mattermost_plugin_openta.Store.Root.{RootState, root_reducer}

abbrev known : Roster → Option String → Bool
known m none = true
known m (some id) = is_some (m id)

-- The pin, if there is one, stands on a participant with an entry.
abbrev pub PinKnown : RootState → Type 0
PinKnown s = known (roster s.participants) s.session.pinned_participant_id ≡ true

-- A list of participants has the pinned one.
abbrev lists : Option String → List ParticipantInfo → Bool
lists none ps = true
lists (some id) ps = is_some (last_with id none ps)

-- What is asked of an action: a pin is set on a known participant, and the whole list is replaced
-- or dropped only where the pinned participant stays or no pin is set.
abbrev pub RespectsPin : RootState → Action → Type 0
RespectsPin s (set_pinned_participant id) = known (roster s.participants) id ≡ true
RespectsPin s (participants_bulk_set ps) = lists s.session.pinned_participant_id ps ≡ true
RespectsPin s participants_reset = s.session.pinned_participant_id ≡ none
RespectsPin s _ = Unit

-- An entry that stays for each id keeps a pin known.
known_mono :
    (m n : Roster) (pin : Option String)
    → ((id : String) → is_some (m id) ≡ true → is_some (n id) ≡ true)
    → known m pin ≡ true
    → known n pin ≡ true
known_mono m n none keep k = refl
known_mono m n (some id) keep k = keep id k

known-removed :
    (m : Roster) (pin : Option String) (id : String)
    → known m pin ≡ true
    → known (roster_step m (participant_removed id)) (if option_eq pin (some id) then none else pin)
      ≡ true
known-removed m none id k = refl
known-removed m (some x) id k = ground (arith, eq_iff x id, eq_iff id x)

-- The session slice drops the pin of the participant who leaves.
pinned-removed :
    (now : ℕ) (t : SessionState) (id : String)
    → (session_reducer now t (participant_removed id)).pinned_participant_id
      ≡ (if option_eq t.pinned_participant_id (some id) then none else t.pinned_participant_id)
unfolding session_reducer
pinned-removed now t id = elim (Bool-cases (option_eq t.pinned_participant_id (some id))) [
  | inl hit ↦ rw hit
  | inr miss ↦ rw miss
]

known-bulk :
    (m : Roster) (pin : Option String) (ps : List ParticipantInfo)
    → lists pin ps ≡ true
    → known (roster_step m (participants_bulk_set ps)) pin ≡ true
known-bulk m none ps h = refl
known-bulk m (some id) ps h = h

set_at-keeps :
    (m : Roster) (id : String) (change : ParticipantInfo → ParticipantInfo) (j : String)
    → is_some (m j) ≡ true
    → is_some (set_at id change m j) ≡ true
set_at-keeps m id change j k = ground arith

-- The pin of the next session state, against the next roster as the actions' meaning gives it.
pin-step :
    (now : ℕ) (s : RootState) (a : Action)
    → RespectsPin s a
    → PinKnown s
    → known
        (roster_step (roster s.participants) a)
        (session_reducer now s.session a).pinned_participant_id
      ≡ true
unfolding session_reducer
pin-step now s (participant_removed id) r k =
    rw (pinned-removed now s.session id)
      (known-removed (roster s.participants) s.session.pinned_participant_id id k)
pin-step now s (participant_added p) r k =
    let m = roster s.participants in
    known_mono m (roster_step m (participant_added p)) s.session.pinned_participant_id
      (λ j h. ground arith) k
pin-step now s (participants_bulk_set ps) r k =
    known-bulk (roster s.participants) s.session.pinned_participant_id ps r
pin-step now s participants_reset r k = rw r
pin-step now s (speaking_changed l) r k =
    let m = roster s.participants in
    known_mono m (roster_step m (speaking_changed l)) s.session.pinned_participant_id
      (λ j h. ground arith) k
pin-step now s (hand_raised id) r k =
    known_mono (roster s.participants) (roster_step (roster s.participants) (hand_raised id))
      s.session.pinned_participant_id (set_at-keeps (roster s.participants) id _) k
pin-step now s (hand_lowered id) r k =
    known_mono (roster s.participants) (roster_step (roster s.participants) (hand_lowered id))
      s.session.pinned_participant_id (set_at-keeps (roster s.participants) id _) k
pin-step now s (participant_media_changed id m c) r k =
    known_mono (roster s.participants)
      (roster_step (roster s.participants) (participant_media_changed id m c))
      s.session.pinned_participant_id (set_at-keeps (roster s.participants) id _) k
pin-step now s (participant_role_changed id role) r k =
    known_mono (roster s.participants)
      (roster_step (roster s.participants) (participant_role_changed id role))
      s.session.pinned_participant_id (set_at-keeps (roster s.participants) id _) k
pin-step now s (set_pinned_participant id) r k = r
pin-step now s disconnected r k = refl
pin-step now s (connect_started c i) r k = refl
pin-step now s (connect_error e) r k = refl
pin-step now s _ r k = k

-- In a valid participants slice, if the pin, where there is one, stands on a known participant, it
-- does so after every action that respects it: a pin is set on a known participant, a new list of
-- participants has the pinned one, and the participants are reset only without a pin.
pub root-PinKnown :
    (now : ℕ) (s : RootState) (a : Action)
    → IsValid s.participants
    → RespectsPin s a
    → PinKnown s
    → PinKnown (root_reducer now s a)
unfolding root_reducer
root-PinKnown now s a v r k =
    rw (fun_ext (λ j. reducer-roster s.participants a j v)) (pin-step now s a r k)
