-- ===== src/Meeting/Listed.antt =====
-- The store lists the participants of the room.
use mattermost_plugin_openta.Base.{
  ℕ, suc, String, ◌≡◌, refl, Bool, true, false, Option, none, some, List, [], ◌∷◌, ◌++◌, arith,
  contains, remove, is_some, option_eq, if◌then◌else◌, ◌∙◌, ap, ◌==◌,
}
use mattermost_plugin_openta.Store.Action.{Action, participant_removed, participants_changed}
use mattermost_plugin_openta.Store.Root.{root_reducer}
use mattermost_plugin_openta.Store.Session.{SessionState, session_reducer}
use mattermost_plugin_openta.Store.Participants.Invariant.{IsValid, IsProper, reducer-IsValid}
use mattermost_plugin_openta.Store.Participants.Listing.{order_step, reducer-order}
use mattermost_plugin_openta.Signaling.RoomState.{Participant}
use mattermost_plugin_openta.Signaling.Messages.{has_id, without_id, set_roles}
use mattermost_plugin_openta.Controller.State.{Controller, Outgoing, dispatch, act}
use mattermost_plugin_openta.Controller.Events.{count, key}

abbrev pub ids : List Participant → List String
ids [] = []
ids (p ∷ ps) = key p.id ∷ ids ps

-- Every participant has an id.
abbrev pub AllNamed : List Participant → Type 0
AllNamed [] = Unit
AllNamed (p ∷ ps) = (is_some p.id ≡ true) × AllNamed ps

-- The store lists these participants in their order, and counts so many.
pub record Lists (ps : List Participant) (n : ℕ) (w : Controller) : Type 0 where
  pub named : AllNamed ps
  pub listed : w.root.participants.order ≡ ids ps
  pub counted : w.root.session.participant_count ≡ n
  pub valid : IsValid w.root.participants

-- The count after an action, from the count before it.
abbrev pub count_step : ℕ → Action → ℕ
count_step n (Action.connected p) = p.participant_count
count_step n (participants_changed m) = m
count_step n (Action.connect_started c r) = 0
count_step n Action.disconnected = 0
count_step n (Action.connect_error m) = 0
count_step n _ = n

pub session-count :
    (now : ℕ) (s : SessionState) (a : Action)
    → (session_reducer now s a).participant_count ≡ count_step s.participant_count a
unfolding session_reducer
session-count now s (participant_removed id) = ground arith
session-count now s _ = refl

-- A write to the store, where the list after it is that of `qs`.
pub write-Lists :
    (ps qs : List Participant) (n : ℕ) (a : Action) (w : Controller)
    → IsProper a
    → AllNamed qs
    → order_step (ids ps) a ≡ ids qs
    → Lists ps n w
    → Lists qs (count_step n a) (dispatch a w)
unfolding dispatch root_reducer
write-Lists ps qs n a w p named same v = record {
  named = named;
  listed = reducer-order w.root.participants a v.valid ∙ ap (λ is. order_step is a) v.listed ∙ same;
  counted = session-count w.now w.root.session a ∙ ap (λ i. count_step i a) v.counted;
  valid = reducer-IsValid w.root.participants a p v.valid;
}

-- A request to the world is of no matter to it.
pub act-Lists :
    (ps : List Participant) (n : ℕ) (o : Outgoing) (w : Controller)
    → Lists ps n w
    → Lists ps n (act o w)
act-Lists ps n o w v = ground arith

option_eq-key :
    (a b : Option String) → is_some a ≡ true → is_some b ≡ true → option_eq a b ≡ (key a == key b)
option_eq-key (some a) (some b) h k = refl
option_eq-key none b h k = cc
option_eq-key (some a) none h k = cc

pub has_id-contains :
    (id : Option String) (ps : List Participant)
    → is_some id ≡ true
    → AllNamed ps
    → has_id id ps ≡ contains (key id) (ids ps)
has_id-contains id [] h v = refl
has_id-contains id (p ∷ ps) h (n, v) = rw (option_eq-key p.id id n h, has_id-contains id ps h v)

pub ids-without_id :
    (id : Option String) (ps : List Participant)
    → is_some id ≡ true
    → AllNamed ps
    → ids (without_id id ps) ≡ remove (key id) (ids ps)
ids-without_id id [] h v = refl
ids-without_id id (p ∷ ps) h (n, v) =
    ground (arith, option_eq-key p.id id n h, ids-without_id id ps h v)

pub without_id-AllNamed :
    (id : Option String) (ps : List Participant) → AllNamed ps → AllNamed (without_id id ps)
without_id-AllNamed id [] v = tt
without_id-AllNamed id (p ∷ ps) (n, v) = ground (arith, without_id-AllNamed id ps v)

pub append-AllNamed :
    (ps : List Participant) (p : Participant)
    → AllNamed ps
    → is_some p.id ≡ true
    → AllNamed (ps ++ p ∷ [])
append-AllNamed [] p v h = (h, tt)
append-AllNamed (q ∷ ps) p (n, v) h = (n, append-AllNamed ps p v h)

pub ids-append :
    (ps : List Participant) (p : Participant) → ids (ps ++ p ∷ []) ≡ ids ps ++ key p.id ∷ []
ids-append [] p = refl
ids-append (q ∷ ps) p = rw (ids-append ps p)

-- A new role keeps the id.
id-if :
    (b : Bool) (role : Option String) (p : Participant)
    → (if b then record p { role = role } else p).id ≡ p.id
id-if true role p = refl
id-if false role p = refl

pub ids-set_roles :
    (id role : Option String) (ps : List Participant) → ids (set_roles id role ps) ≡ ids ps
ids-set_roles id role [] = refl
ids-set_roles id role (p ∷ ps) = rw (ids-set_roles id role ps, id-if (option_eq p.id id) role p)

pub count-set_roles :
    (id role : Option String) (ps : List Participant) → count (set_roles id role ps) ≡ count ps
count-set_roles id role [] = refl
count-set_roles id role (p ∷ ps) = ap suc (count-set_roles id role ps)

pub set_roles-AllNamed :
    (id role : Option String) (ps : List Participant)
    → AllNamed ps
    → AllNamed (set_roles id role ps)
set_roles-AllNamed id role [] v = tt
set_roles-AllNamed id role (p ∷ ps) (n, v) =
    (rw (id-if (option_eq p.id id) role p) n, set_roles-AllNamed id role ps v)
