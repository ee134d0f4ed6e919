-- ===== src/Store/Root/Sharing.antt =====
-- The selector for the participant who shares a screen.
use mattermost_plugin_openta.Base.{
  String, ◌≡◌, true, false, Option, none, some, List, [], ◌∷◌, Dict, lookup, contains, eq_iff,
  arith, ◌==◌, if◌then◌else◌, Bool-cases, inl, inr,
}
use mattermost_plugin_openta.Store.Tracks.{ParticipantTracks}
use mattermost_plugin_openta.Store.Root.{
  RootState, has_screen, find_sharer, select_screen_sharer_id,
}

-- The ids of the list before the first occurrence of one, all of it where it does not occur.
abbrev before : String → List String → List String
before id [] = []
before id (x ∷ xs) = if x == id then [] else x ∷ before id xs

-- `select_screen_sharer_id` gives the first participant in display order with a screen track, and
-- nothing exactly where no listed participant has one.
abbrev pub FirstSharer : Dict ParticipantTracks → List String → Option String → Type 0
FirstSharer tracks ids none =
    (id : String) → contains id ids ≡ true → has_screen (lookup id tracks) ≡ false
FirstSharer tracks ids (some id) =
    (contains id ids ≡ true)
    × (has_screen (lookup id tracks) ≡ true)
    × ((j : String) → contains j (before id ids) ≡ true → has_screen (lookup j tracks) ≡ false)

sharer_cons :
    (tracks : Dict ParticipantTracks) (x : String) (xs : List String) (o : Option String)
    → has_screen (lookup x tracks) ≡ false
    → FirstSharer tracks xs o
    → FirstSharer tracks (x ∷ xs) o
sharer_cons tracks x xs none h f = λ id c. ground (arith, eq_iff x id, f id)
sharer_cons tracks x xs (some id) h f =
    (ground (arith, f.0), f.1, λ j c. ground (arith, eq_iff x id, eq_iff x j, f.2 j))

find_sharer-first :
    (tracks : Dict ParticipantTracks) (ids : List String)
    → FirstSharer tracks ids (find_sharer tracks ids)
unfolding find_sharer
find_sharer-first tracks [] = λ id h. cc
find_sharer-first tracks (x ∷ xs) = elim (Bool-cases (has_screen (lookup x tracks))) [
  | inl shares ↦ rw shares (ground (arith, eq_iff x x), shares, λ j c. ground (arith, eq_iff x x))
  | inr none_here ↦ rw none_here (sharer_cons tracks x xs _ none_here (find_sharer-first tracks xs))
]

-- The selected sharer is the first listed participant with a non-empty screen track id, and none is
-- selected only where no listed participant has one.
pub sharer-first :
    (s : RootState)
    → FirstSharer s.tracks.per_participant s.participants.order (select_screen_sharer_id s)
unfolding select_screen_sharer_id
sharer-first s = find_sharer-first s.tracks.per_participant s.participants.order
