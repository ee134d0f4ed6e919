-- ===== src/Store/Participants.antt =====
-- webapp/src/store/slice_participants.ts
pub mod Invariant
pub mod Updates
pub mod Listing
use mattermost_plugin_openta.Base.{
  ℕ, String, Bool, true, false, Option, none, some, List, [], ◌∷◌, ◌++◌, map, Dict, lookup, insert,
  erase, contains, remove, if◌then◌else◌,
}
use mattermost_plugin_openta.Store.Action.{
  Action, Role, ParticipantInfo, participant_added, participant_removed, participants_bulk_set,
  speaking_changed, participants_reset, hand_raised, hand_lowered, participant_media_changed,
  participant_role_changed,
}

pub record ParticipantsState : Type 0 where
  pub by_id : Dict ParticipantInfo
  pub order : List String

abbrev pub initial : ParticipantsState
initial = record { by_id = []; order = [] }

-- `a ?? b` where an own property is present only with a value.
abbrev over {ℓ} : {A : Type ℓ} → Option A → Option A → Option A
over (some a) old = some a
over none old = old

-- `{...existing, ...participant}`
abbrev spread : ParticipantInfo → ParticipantInfo → ParticipantInfo
spread old p = record {
  id = p.id;
  display_name = p.display_name;
  role = p.role;
  is_host = over p.is_host old.is_host;
  is_speaking = over p.is_speaking old.is_speaking;
  hand_raised = over p.hand_raised old.hand_raised;
  muted = over p.muted old.muted;
  camera_off = over p.camera_off old.camera_off;
}

added : ParticipantsState → ParticipantInfo → Option ParticipantInfo → ParticipantsState
added s p (some old) = record { by_id = insert p.id (spread old p) s.by_id; order = s.order }
added s p none = record { by_id = insert p.id p s.by_id; order = s.order ++ p.id ∷ [] }

removed : ParticipantsState → String → Option ParticipantInfo → ParticipantsState
removed s id none = s
removed s id (some _) = record { by_id = erase id s.by_id; order = remove id s.order }

-- The loop of BULK_SET over the participants, from the entries set so far.
bulk_set : Dict ParticipantInfo → List ParticipantInfo → Dict ParticipantInfo
bulk_set by_id [] = by_id
bulk_set by_id (p ∷ ps) = bulk_set (insert p.id p by_id) ps

-- `{...undefined, isSpeaking}` has no id and no name; they are written as empty texts here. Such an
-- entry arises only where an id of `order` has no entry.
abbrev unnamed : ParticipantInfo
unnamed = record {
  id = "";
  display_name = "";
  role = none;
  is_host = none;
  is_speaking = none;
  hand_raised = none;
  muted = none;
  camera_off = none;
}

abbrev get_unnamed : Option ParticipantInfo → ParticipantInfo
get_unnamed none = unnamed
get_unnamed (some p) = p

-- `{...state.byId[id], isSpeaking: speakerSet.has(id)}`
abbrev heard : Dict ParticipantInfo → List String → String → ParticipantInfo
heard old speakers id =
    let p = get_unnamed (lookup id old) in record p { is_speaking = some (contains id speakers) }

-- The loop of SPEAKING_CHANGED over `state.order`, from the entries set so far.
speaking :
    Dict ParticipantInfo → List String → Dict ParticipantInfo → List String → Dict ParticipantInfo
speaking old speakers by_id [] = by_id
speaking old speakers by_id (id ∷ ids) =
    speaking old speakers (insert id (heard old speakers id) by_id) ids

-- `{...state, byId: {...state.byId, [id]: change(existing)}}`, or the same state without an entry.
abbrev update :
    ParticipantsState
    → String
    → (ParticipantInfo → ParticipantInfo)
    → Option ParticipantInfo
    → ParticipantsState
update s id change none = s
update s id change (some old) = record s { by_id = insert id (change old) s.by_id }

abbrev change_media : Option Bool → Option Bool → ParticipantInfo → ParticipantInfo
change_media muted camera_off p = record p {
  muted = over muted p.muted;
  camera_off = over camera_off p.camera_off;
}

unfoldable pub participants_reducer : ParticipantsState → Action → ParticipantsState
unfolding added removed bulk_set speaking
participants_reducer s (participant_added p) = added s p (lookup p.id s.by_id)
participants_reducer s (participant_removed id) = removed s id (lookup id s.by_id)
participants_reducer s (participants_bulk_set ps) = record {
  by_id = bulk_set [] ps;
  order = map (λ p. p.id) ps;
}
participants_reducer s (speaking_changed speakers) = record s {
  by_id = speaking s.by_id speakers [] s.order;
}
participants_reducer s participants_reset = initial
participants_reducer s (hand_raised id) =
    update s id (λ p. record p { hand_raised = some true }) (lookup id s.by_id)
participants_reducer s (hand_lowered id) =
    update s id (λ p. record p { hand_raised = some false }) (lookup id s.by_id)
participants_reducer s (participant_media_changed id muted camera_off) =
    update s id (change_media muted camera_off) (lookup id s.by_id)
participants_reducer s (participant_role_changed id role) =
    update s id (λ p. record p { role = some role }) (lookup id s.by_id)
participants_reducer s _ = s
