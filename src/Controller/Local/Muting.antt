-- ===== src/Controller/Local/Muting.antt =====
-- Who is muted when the user mutes all.
use mattermost_plugin_openta.Base.{
  ℕ, String, ◌≡◌, refl, Bool, true, not, ◌&&◌, ◌||◌, Option-cases, inl, inr, Option, none, some,
  List, [], ◌∷◌, ◌==◌, contains, is_some, option_eq, eq_iff, if◌then◌else◌, arith, map,
}
use mattermost_plugin_openta.Store.Root.{select_local_participant_id}
use mattermost_plugin_openta.Signaling.RoomState.{Participant}
use mattermost_plugin_openta.Signaling.Room.{force_mute}
use mattermost_plugin_openta.Controller.State.{Controller, tell_client}
use mattermost_plugin_openta.Controller.Events.{key}
use mattermost_plugin_openta.Controller.Local.{others, mute_all, with_client}

-- Every participant has an id.
abbrev pub AllNamed : List Participant → Type 0
AllNamed [] = Unit
AllNamed (p ∷ ps) = (is_some p.id ≡ true) × AllNamed ps

one_more :
    (self : Option String) (j x : String) (ids : List String) (m : Bool)
    → contains j ids ≡ (m && not (option_eq (some j) self))
    → contains j (if option_eq (some x) self then ids else x ∷ ids)
      ≡ (((x == j) || m) && not (option_eq (some j) self))
one_more none j x ids m h = ground arith
one_more (some s) j x ids m h = ground (arith, eq_iff s j, eq_iff j s, eq_iff x j, eq_iff x s)

contains-others :
    (self : Option String) (j : String) (ps : List Participant)
    → AllNamed ps
    → contains j (others self ps)
      ≡ (contains j (map (λ p. key p.id) ps) && not (option_eq (some j) self))
contains-others self j [] h = refl
contains-others self j (p ∷ ps) h = elim (Option-cases p.id) [
  | inl unnamed ↦ ground (arith, h.0, unnamed)
  | inr (x, e) ↦ simp e (one_more self j x (others self ps) _ (contains-others self j ps h.1))
]

-- What the user's client is asked to mute: a participant is among them where it takes part and is not
-- the local one.
abbrev pub Mutes : Option String → List Participant → List String → Type 0
Mutes self ps ids =
    (j : String)
    → contains j ids ≡ (contains j (map (λ p. key p.id) ps) && not (option_eq (some j) self))

-- Where every participant has an id, `muteAll` asks the client once, to mute all participants but the
-- local one.
pub mute_all-Mutes :
    (ps : List Participant) (k : ℕ) (w : Controller)
    → w.client ≡ some k
    → AllNamed ps
    → (ids : List String) × ((mute_all ps w).log ≡ tell_client k (force_mute ids) ∷ w.log)
      × Mutes (select_local_participant_id w.root) ps ids
unfolding mute_all with_client
mute_all-Mutes ps k w e h = (
  others (select_local_participant_id w.root) ps,
  simp e refl,
  λ j. contains-others (select_local_participant_id w.root) j ps h,
)
