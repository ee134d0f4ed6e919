-- ===== src/Components/Layouts.antt =====
-- Whom the layouts of the expanded view and the tiles of the mini bar show (speaker_layout.tsx,
-- grid_layout.tsx, screen_focus_layout.tsx of webapp/src/components/expanded_view, and
-- webapp/src/components/meeting_mini_bar/tile_strip.tsx).
pub mod Everyone
pub mod Strip
use mattermost_plugin_openta.Base.{
  ℕ, zero, suc, ◌-◌, String, Bool, true, false, Option, none, some, List, [], ◌∷◌, Dict, lookup,
  is_some, remove, truthy, ltb, if◌then◌else◌,
}
use mattermost_plugin_openta.Store.Action.{ParticipantInfo}
use mattermost_plugin_openta.Store.Tracks.{ParticipantTracks}
use mattermost_plugin_openta.Store.Root.{RootState, select_screen_sharer_id}
use mattermost_plugin_openta.Hooks.LayoutMode.{LayoutMode, speaker, grid, screen_focus}

-- `activeSpeakers.find((id) => byId[id] != null)`
abbrev pub find_known : Dict ParticipantInfo → List String → Option String
find_known by_id [] = none
find_known by_id (id ∷ ids) = if is_some (lookup id by_id) then some id else find_known by_id ids

-- `pinnedId && byId[pinnedId] ? pinnedId : undefined`
abbrev pub known_pin : Dict ParticipantInfo → Option String → Option String
known_pin by_id none = none
known_pin by_id (some id) =
    if truthy id then (if is_some (lookup id by_id) then some id else none) else none

-- `a ?? b`
abbrev pub or_else : Option String → String → String
or_else none b = b
or_else (some a) b = a

-- The tiles of the speaker layout, the large one first.
abbrev pub speaker_tiles : RootState → List String → List String
speaker_tiles s [] = []
speaker_tiles s (first ∷ rest) =
    let by_id = s.participants.by_id in
    let speaker_id =
      or_else (known_pin by_id s.session.pinned_participant_id)
        (or_else (find_known by_id s.tracks.active_speakers) first) in
    speaker_id ∷ remove speaker_id (first ∷ rest)

-- The tiles of the screen focus layout; without a shared screen it is the grid.
abbrev screen_of : Option ParticipantTracks → Option String
screen_of none = none
screen_of (some t) = t.screen_track_id

abbrev focus_on : RootState → Option String → List String
focus_on s none = s.participants.order
focus_on s (some id) =
    if is_some (screen_of (lookup id s.tracks.per_participant))
    then id ∷ remove id s.participants.order
    else s.participants.order

-- Whose tiles a layout shows, in their order.
unfoldable pub tiles : LayoutMode → RootState → List String
tiles speaker s = speaker_tiles s s.participants.order
tiles grid s = s.participants.order
tiles screen_focus s = focus_on s (select_screen_sharer_id s)

-- `MAX_VISIBLE`
abbrev pub max_visible : ℕ
max_visible = 4

abbrev pub take {ℓ} : {A : Type ℓ} → List A → ℕ → List A
take [] n = []
take (x ∷ xs) zero = []
take (x ∷ xs) (suc n) = x ∷ take xs n

abbrev pub length {ℓ} : {A : Type ℓ} → List A → ℕ
length [] = 0
length (x ∷ xs) = suc (length xs)

-- The remote participants: `localId ? allOrder.filter((id) => id !== localId) : allOrder`.
abbrev pub without_local : Option String → List String → List String
without_local none ids = ids
without_local (some id) ids = if truthy id then remove id ids else ids

abbrev pub strip_of : List String → List String × Option ℕ
strip_of order =
    let total = length order in
    if ltb max_visible total
    then (take order (max_visible - 1), some (total - (max_visible - 1)))
    else (take order max_visible, none)

-- The ids with an entry: for another one nothing is rendered.
abbrev pub known_ids : Dict ParticipantInfo → List String → List String
known_ids by_id [] = []
known_ids by_id (id ∷ ids) =
    if is_some (lookup id by_id) then id ∷ known_ids by_id ids else known_ids by_id ids

-- The ids that the strip shows, and the number on its badge, if it has one.
unfoldable pub strip : RootState → List String × Option ℕ
strip s =
    let (visible, overflow) =
      strip_of (without_local s.session.local_participant_id s.participants.order) in
    (known_ids s.participants.by_id visible, overflow)
