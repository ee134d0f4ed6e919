-- ===== src/Store/Participants/Updates.antt =====
-- What each action does to each participant: the reducer against a map from ids to participants.
use mathlib.Core.Option
use mattermost_plugin_openta.Base.{
  String, ◌≡◌, refl, Bool, true, false, Option, none, some, List, [], ◌∷◌, Dict, lookup, insert,
  contains, lookup-insert, lookup-erase, eq_iff, arith, Option-cases, inl, inr, if◌then◌else◌, ◌==◌,
}
use mattermost_plugin_openta.Store.Action.{
  Action, ParticipantInfo, participant_added, participant_removed, participants_bulk_set,
  speaking_changed, participants_reset, hand_raised, hand_lowered, participant_media_changed,
  participant_role_changed,
}
use mattermost_plugin_openta.Store.Participants.{
  ParticipantsState, bulk_set, speaking, heard, update, spread, change_media, added, removed,
  participants_reducer,
}
use mattermost_plugin_openta.Store.Participants.Invariant.{IsValid}

-- Who is in the meeting, by id.
abbrev pub Roster : Type 0
Roster = String → Option ParticipantInfo

abbrev pub roster : ParticipantsState → Roster
roster s id = lookup id s.by_id

abbrev pub merge : Option ParticipantInfo → ParticipantInfo → ParticipantInfo
merge none p = p
merge (some old) p = spread old p

-- The last participant of the list with the id.
abbrev pub last_with :
    String → Option ParticipantInfo → List ParticipantInfo → Option ParticipantInfo
last_with id found [] = found
last_with id found (p ∷ ps) = last_with id (if p.id == id then some p else found) ps

abbrev pub set_at : String → (ParticipantInfo → ParticipantInfo) → Roster → Roster
set_at id change m j = if id == j then Option.map change (m j) else m j

abbrev pub set_speaking : Bool → ParticipantInfo → ParticipantInfo
set_speaking b p = record p { is_speaking = some b }

-- The meaning of an action, with no representation in sight.
abbrev pub roster_step : Roster → Action → Roster
roster_step m (participant_added p) j = if p.id == j then some (merge (m j) p) else m j
roster_step m (participant_removed id) j = if id == j then none else m j
roster_step m (participants_bulk_set ps) j = last_with j none ps
roster_step m (speaking_changed speakers) j = Option.map (set_speaking (contains j speakers)) (m j)
roster_step m participants_reset j = none
roster_step m (hand_raised id) j = set_at id (λ p. record p { hand_raised = some true }) m j
roster_step m (hand_lowered id) j = set_at id (λ p. record p { hand_raised = some false }) m j
roster_step m (participant_media_changed id muted camera_off) j =
    set_at id (change_media muted camera_off) m j
roster_step m (participant_role_changed id role) j =
    set_at id (λ p. record p { role = some role }) m j
roster_step m _ j = m j

added-roster :
    (s : ParticipantsState) (p : ParticipantInfo) (j : String)
    → roster (added s p (lookup p.id s.by_id)) j
      ≡ (if p.id == j then some (merge (lookup j s.by_id) p) else lookup j s.by_id)
unfolding added
added-roster s p j = elim (Option-cases (lookup p.id s.by_id)) [
  | inl new ↦ rw (new, added) (ground (arith, lookup-insert p.id j p s.by_id, eq_iff p.id j))
  | inr (old, found) ↦
      rw (found, added) (ground (arith, lookup-insert p.id j (spread old p) s.by_id, eq_iff p.id j))
]

removed-roster :
    (s : ParticipantsState) (id j : String)
    → roster (removed s id (lookup id s.by_id)) j ≡ (if id == j then none else lookup j s.by_id)
unfolding removed
removed-roster s id j = elim (Option-cases (lookup id s.by_id)) [
  | inl new ↦ rw (new, removed) (ground (arith, eq_iff id j))
  | inr (old, found) ↦ rw (found, removed) (lookup-erase id j s.by_id)
]

update-roster :
    (s : ParticipantsState) (id : String) (change : ParticipantInfo → ParticipantInfo) (j : String)
    → roster (update s id change (lookup id s.by_id)) j ≡ set_at id change (roster s) j
update-roster s id change j = elim (Option-cases (lookup id s.by_id)) [
  | inl new ↦ rw new (ground (arith, eq_iff id j))
  | inr (old, found) ↦
      rw found (ground (arith, lookup-insert id j (change old) s.by_id, eq_iff id j))
]

bulk_set-roster :
    (by_id : Dict ParticipantInfo) (ps : List ParticipantInfo) (j : String)
    → lookup j (bulk_set by_id ps) ≡ last_with j (lookup j by_id) ps
unfolding bulk_set
bulk_set-roster by_id [] j = refl
bulk_set-roster by_id (p ∷ ps) j =
    rw (bulk_set-roster (insert p.id p by_id) ps j, lookup-insert p.id j p by_id)

speaking-roster :
    (old : Dict ParticipantInfo) (speakers : List String) (by_id : Dict ParticipantInfo)
    (ids : List String) (j : String)
    → lookup j (speaking old speakers by_id ids)
      ≡ (if contains j ids then some (heard old speakers j) else lookup j by_id)
unfolding speaking
speaking-roster old speakers by_id [] j = refl
speaking-roster old speakers by_id (i ∷ ids) j = ground (
  arith,
  speaking-roster old speakers (insert i (heard old speakers i) by_id) ids j,
  lookup-insert i j (heard old speakers i) by_id,
  eq_iff i j,
)

-- In a valid state every action changes the slice, read as a map from ids to participants, as the
-- specification of the action says, for every id.
pub reducer-roster :
    (s : ParticipantsState) (a : Action) (j : String)
    → IsValid s
    → roster (participants_reducer s a) j ≡ roster_step (roster s) a j
unfolding participants_reducer
reducer-roster s (participant_added p) j v = added-roster s p j
reducer-roster s (participant_removed id) j v = removed-roster s id j
reducer-roster s (participants_bulk_set ps) j v = bulk_set-roster [] ps j
reducer-roster s (speaking_changed speakers) j v =
    ground (arith, speaking-roster s.by_id speakers [] s.order j, v.keys j)
reducer-roster s participants_reset j v = refl
reducer-roster s (hand_raised id) j v = update-roster s id _ j
reducer-roster s (hand_lowered id) j v = update-roster s id _ j
reducer-roster s (participant_media_changed id m c) j v = update-roster s id _ j
reducer-roster s (participant_role_changed id r) j v = update-roster s id _ j
reducer-roster s _ j v = refl
