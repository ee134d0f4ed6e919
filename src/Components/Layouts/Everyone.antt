-- ===== src/Components/Layouts/Everyone.antt =====
-- Every layout shows everyone.
use mathlib.Core.List.Perm
use mathlib.Core.List.{Perm}
use mattermost_plugin_openta.Base.{
  String, ◌≡◌, refl, true, false, Option, none, some, List, [], ◌∷◌, Dict, lookup, is_some,
  contains, remove, remove-absent, subst, Distinct, eq_iff, arith, Bool-cases, inl, inr, ◌==◌, ◌∙◌,
}
use mattermost_plugin_openta.Store.Action.{ParticipantInfo}
use mattermost_plugin_openta.Store.Participants.Invariant.{IsValid}
use mattermost_plugin_openta.Store.Root.{RootState, select_screen_sharer_id}
use mattermost_plugin_openta.Store.Root.Sharing.{FirstSharer, sharer-first}
use mattermost_plugin_openta.Hooks.LayoutMode.{LayoutMode, speaker, grid, screen_focus}
use mattermost_plugin_openta.Components.Layouts.{
  screen_of, find_known, known_pin, or_else, speaker_tiles, focus_on, tiles,
}

-- One of the list first, and the others.
front-perm :
    (id : String) (ids : List String)
    → contains id ids ≡ true
    → Distinct ids
    → Perm (id ∷ remove id ids) ids
front-perm id [] h d = cc
front-perm id (j ∷ ids) h (fresh, d) = elim (Bool-cases (j == id)) [
  | inl here ↦
      let same = (eq_iff j id).0 here in
      let gone = remove-absent id ids (subst (λ k. contains k ids ≡ false) same fresh) in
      rw (here, gone) (subst (λ k. Perm (k ∷ ids) (j ∷ ids)) same Perm.rfl)
  | inr other ↦ rw other (
      Perm.trans (Perm.swap j id (remove id ids))
        (Perm.cons j (front-perm id ids (ground arith) d)))
]

-- Who has an entry is listed.
find_known-listed :
    (by_id : Dict ParticipantInfo) (ids : List String) (id : String)
    → find_known by_id ids ≡ some id
    → is_some (lookup id by_id) ≡ true
find_known-listed by_id [] id h = cc
find_known-listed by_id (j ∷ ids) id h = elim (Bool-cases (is_some (lookup j by_id))) [
  | inl here ↦ ground (arith, here)
  | inr other ↦ find_known-listed by_id ids id (ground arith)
]

known_pin-listed :
    (by_id : Dict ParticipantInfo) (pin : Option String) (id : String)
    → known_pin by_id pin ≡ some id
    → is_some (lookup id by_id) ≡ true
known_pin-listed by_id none id h = cc
known_pin-listed by_id (some j) id h = ground arith

sharer-listed :
    (s : RootState) (id : String)
    → select_screen_sharer_id s ≡ some id
    → contains id s.participants.order ≡ true
sharer-listed s id h =
    let first =
      subst (FirstSharer s.tracks.per_participant s.participants.order) h (sharer-first s) in
    first.0

-- The first of two choices that is made, else a listed one.
chosen-listed :
    (o : Option String) (b : String) (ids : List String)
    → ((a : String) → o ≡ some a → contains a ids ≡ true)
    → contains b ids ≡ true
    → contains (or_else o b) ids ≡ true
chosen-listed none b ids h c = c
chosen-listed (some a) b ids h c = h a refl

speaker_tiles-perm :
    (s : RootState) (ids : List String)
    → ((id : String) → contains id ids ≡ is_some (lookup id s.participants.by_id))
    → Distinct ids
    → Perm (speaker_tiles s ids) ids
speaker_tiles-perm s [] keys d = Perm.rfl
speaker_tiles-perm s (first ∷ rest) keys d =
    let by_id = s.participants.by_id in
    let ids = first ∷ rest in
    front-perm _ ids
      (chosen-listed (known_pin by_id s.session.pinned_participant_id) _ ids
        (λ a h. keys a ∙ known_pin-listed by_id s.session.pinned_participant_id a h)
        (chosen-listed (find_known by_id s.tracks.active_speakers) first ids
          (λ a h. keys a ∙ find_known-listed by_id s.tracks.active_speakers a h)
          (ground (arith, eq_iff first first))))
      d

focus_on-perm :
    (s : RootState) (o : Option String)
    → IsValid s.participants
    → ((id : String) → o ≡ some id → contains id s.participants.order ≡ true)
    → Perm (focus_on s o) s.participants.order
focus_on-perm s none v h = Perm.rfl
focus_on-perm s (some id) v h =
    elim (Bool-cases (is_some (screen_of (lookup id s.tracks.per_participant)))) [
      | inl shares ↦ rw shares (front-perm id s.participants.order (h id refl) v.distinct)
      | inr none_there ↦ rw none_there Perm.rfl
    ]

-- In a valid participants slice each layout shows everyone in the meeting, each once: the speaker
-- layout, the grid and the screen focus show the listed participants in some order.
pub tiles-perm :
    (m : LayoutMode) (s : RootState)
    → IsValid s.participants
    → Perm (tiles m s) s.participants.order
unfolding tiles
tiles-perm speaker s v = speaker_tiles-perm s s.participants.order v.keys v.distinct
tiles-perm grid s v = Perm.rfl
tiles-perm screen_focus s v = focus_on-perm s (select_screen_sharer_id s) v (sharer-listed s)
