-- ===== src/Components/Layouts/Strip.antt =====
-- The strip of the mini bar has four tiles at most, and says how many participants it leaves out.
use mattermost_plugin_openta.Base.{
  ℕ, zero, suc, ◌+◌, ◌≤◌, String, ◌≡◌, refl, sym, Option, none, some, List, [], ◌∷◌, arith, ltb,
  subst, ◌∙◌, Bool-cases, inl, inr, ◌⊎◌, ◌≢◌, ap, ◌==◌, eq_iff, remove, contains, Dict, lookup,
  is_some, true, false,
}
use mattermost_plugin_openta.Store.Action.{ParticipantInfo}
use mattermost_plugin_openta.Store.Participants.Invariant.{IsValid}
use mattermost_plugin_openta.Store.Root.{RootState}
use mattermost_plugin_openta.Components.Layouts.{
  take, length, max_visible, strip_of, strip, without_local, known_ids,
}

-- The number on a badge.
abbrev pub hidden : Option ℕ → ℕ
hidden none = 0
hidden (some n) = n

abbrev pub badges : Option ℕ → ℕ
badges none = 0
badges (some n) = 1

length-take_le : (xs : List String) (n : ℕ) → n ≤ length xs → length (take xs n) ≡ n
length-take_le [] zero h = refl
length-take_le [] (suc n) h = absurd (omega arith)
length-take_le (x ∷ xs) zero h = refl
length-take_le (x ∷ xs) (suc n) h = omega (arith, length-take_le xs n (omega arith))

take_all : (xs : List String) (n : ℕ) → length xs ≤ n → take xs n ≡ xs
take_all [] n h = refl
take_all (x ∷ xs) zero h = absurd (omega arith)
take_all (x ∷ xs) (suc n) h = ground (arith, take_all xs n)

-- What a strip shows of these: the first of them, with tiles and badge at most four; the badge
-- counts exactly those that are not shown, and there is none where all are.
abbrev pub Shows : List String → List String × Option ℕ → Type 0
Shows ids (shown, badge) =
    (shown ≡ take ids (length shown))
    × (length shown + badges badge ≤ max_visible)
    × (length shown + hidden badge ≡ length ids)
    × (badge ≡ none → shown ≡ ids)

strip_of-Shows : (ids : List String) → Shows ids (strip_of ids)
strip_of-Shows ids = elim (Bool-cases (ltb max_visible (length ids))) [
  | inl more ↦
      let l : length (take ids 3) ≡ 3 = length-take_le ids 3 (ground arith) in
      rw more (ground (arith, l), omega (arith, l), ground (arith, l, more), λ h. cc)
  | inr fits ↦
      let all : take ids 4 ≡ ids = take_all ids 4 (ground arith) in
      rw (fits, all)
        (sym (take_all ids (length ids) (omega arith)), ground arith, omega arith, λ h. refl)
]

apart : (x y : String) → (x == y) ≡ false → x ≢ y
apart x y h e = let same = (eq_iff x y).1 e in cc

-- An id is that of the local participant, where one is set; an empty one counts as not set.
abbrev pub IsLocal : Option String → String → Type 0
IsLocal none id = ⊥
IsLocal (some l) id = (l ≡ id) × (l ≢ "")

-- `ids` are the ids of the others in this order.
abbrev pub AreRemotes : Option String → (order ids : List String) → Type 0
AreRemotes l [] ids = ids ≡ []
AreRemotes l (id ∷ order) ids =
    (IsLocal l id × AreRemotes l order ids)
    ⊎ ((¬ IsLocal l id) × ((rest : List String) × (ids ≡ id ∷ rest) × AreRemotes l order rest))

none_local :
    (l : Option String)
    → ((id : String) → ¬ IsLocal l id)
    → (order : List String) → AreRemotes l order order
none_local l h [] = refl
none_local l h (id ∷ order) = inr (h id, (order, refl, none_local l h order))

remove-AreRemotes :
    (l : String) → l ≢ "" → (order : List String) → AreRemotes (some l) order (remove l order)
remove-AreRemotes l n [] = refl
remove-AreRemotes l n (id ∷ order) = elim (Bool-cases (id == l)) [
  | inl same ↦ rw same (inl ((sym ((eq_iff id l).0 same), n), remove-AreRemotes l n order))
  | inr other ↦ rw other (
      inr
        (λ own. apart id l other (sym own.0), (remove l order, refl, remove-AreRemotes l n order)))
]

without_local-AreRemotes :
    (l : Option String) (order : List String) → AreRemotes l order (without_local l order)
without_local-AreRemotes none order = none_local none (λ id h. h) order
without_local-AreRemotes (some l) order = elim (Bool-cases (l == "")) [
  | inl empty ↦ rw empty (none_local (some l) (λ id h. h.1 ((eq_iff l "").0 empty)) order)
  | inr given ↦ rw given (remove-AreRemotes l (λ e. apart l "" given e) order)
]

-- Every id has an entry.
AllKnown : Dict ParticipantInfo → List String → Type 0
AllKnown by_id [] = Unit
AllKnown by_id (id ∷ ids) = (is_some (lookup id by_id) ≡ true) × AllKnown by_id ids

all_known :
    (by_id : Dict ParticipantInfo) (ids : List String)
    → ((id : String) → contains id ids ≡ true → is_some (lookup id by_id) ≡ true)
    → AllKnown by_id ids
unfolding AllKnown
all_known by_id [] h = tt
all_known by_id (id ∷ ids) h =
    (h id (ground (arith, eq_iff id id)), all_known by_id ids (λ j c. h j (ground arith)))

remove-AllKnown :
    (by_id : Dict ParticipantInfo) (l : String) (ids : List String)
    → AllKnown by_id ids
    → AllKnown by_id (remove l ids)
unfolding AllKnown
remove-AllKnown by_id l [] h = tt
remove-AllKnown by_id l (id ∷ ids) h = elim (Bool-cases (id == l)) [
  | inl same ↦ rw same (remove-AllKnown by_id l ids h.1)
  | inr other ↦ rw other (h.0, remove-AllKnown by_id l ids h.1)
]

without_local-AllKnown :
    (by_id : Dict ParticipantInfo) (l : Option String) (ids : List String)
    → AllKnown by_id ids
    → AllKnown by_id (without_local l ids)
without_local-AllKnown by_id none ids h = h
without_local-AllKnown by_id (some l) ids h = elim (Bool-cases (l == "")) [
  | inl empty ↦ rw empty h
  | inr given ↦ rw given (remove-AllKnown by_id l ids h)
]

known-take :
    (by_id : Dict ParticipantInfo) (ids : List String) (n : ℕ)
    → AllKnown by_id ids
    → known_ids by_id (take ids n) ≡ take ids n
unfolding AllKnown
known-take by_id [] n h = refl
known-take by_id (id ∷ ids) zero h = refl
known-take by_id (id ∷ ids) (suc n) h = rw h.0 (ap (λ r. id ∷ r) (known-take by_id ids n h.1))

known-strip :
    (by_id : Dict ParticipantInfo) (ids : List String)
    → AllKnown by_id ids
    → (known_ids by_id (strip_of ids).0, (strip_of ids).1) ≡ strip_of ids
known-strip by_id ids h = elim (Bool-cases (ltb max_visible (length ids))) [
  | inl more ↦ rw (more, known-take by_id ids 3 h) refl
  | inr fits ↦ rw (fits, known-take by_id ids 4 h) refl
]

-- Over a participants slice whose order lists exactly its entries, each once, the strip of the mini bar
-- shows the first participants other than the local one, with tiles and badge at most four; the badge
-- counts exactly those that are not shown, and there is none where all are.
pub strip-Shows :
    (s : RootState)
    → IsValid s.participants
    → (ids : List String) × AreRemotes s.session.local_participant_id s.participants.order ids
      × Shows ids (strip s)
unfolding strip
strip-Shows s v =
    let order = s.participants.order in
    let l = s.session.local_participant_id in
    let ids = without_local l order in
    let by_id = s.participants.by_id in
    let known = all_known by_id order (λ id c. sym (v.keys id) ∙ c) in
    (
      ids,
      without_local-AreRemotes l order,
      subst (λ x. Shows ids x)
          (sym (known-strip by_id ids (without_local-AllKnown by_id l order known)))
          (strip_of-Shows ids),
    )
