-- ===== src/Store/Participants/Invariant.antt =====
-- The slice's two views of the participants agree, after every action.
use mattermost_plugin_openta.Base.{
  String, ◌≡◌, refl, true, some, List, [], ◌∷◌, map, Dict, lookup, insert, contains, Distinct,
  is_some, lookup-insert, lookup-erase, contains-append_one, contains-remove, Distinct-append_one,
  Distinct-remove, eq_iff, arith, Option-cases, inl, inr, ◌||◌,
}
use mattermost_plugin_openta.Store.Action.{
  Action, ParticipantInfo, participant_added, participant_removed, participants_bulk_set,
  speaking_changed, participants_reset, hand_raised, hand_lowered, participant_media_changed,
  participant_role_changed,
}
use mattermost_plugin_openta.Store.Participants.{
  ParticipantsState, bulk_set, speaking, update, spread, added, removed, heard,
  participants_reducer,
}

pub record IsValid (s : ParticipantsState) : Type 0 where
  -- no id stands twice in the order,
  pub distinct : Distinct s.order
  -- the ids of the order are those that have an entry,
  pub keys : (id : String) → contains id s.order ≡ is_some (lookup id s.by_id)
  -- and each entry stands under its own id
  pub own_id : (id : String) (p : ParticipantInfo) → lookup id s.by_id ≡ some p → p.id ≡ id

-- The ids of a bulk set are distinct; nothing is asked of another action.
abbrev pub IsProper : Action → Type 0
IsProper (participants_bulk_set ps) = Distinct (map (λ p. p.id) ps)
IsProper _ = Unit

added-IsValid :
    (s : ParticipantsState) (p : ParticipantInfo)
    → IsValid s
    → IsValid (added s p (lookup p.id s.by_id))
unfolding added
added-IsValid s p v = elim (Option-cases (lookup p.id s.by_id)) [
  | inl new ↦
      rw (new, added)
        (record {
          distinct = ground (arith, Distinct-append_one p.id s.order v.distinct, v.keys p.id);
          keys = λ id. ground (
            arith,
            contains-append_one id p.id s.order,
            lookup-insert p.id id p s.by_id,
            v.keys id,
          );
          own_id = λ id q e.
              ground (arith, lookup-insert p.id id p s.by_id, eq_iff p.id id, v.own_id id q);
        })
  | inr (old, found) ↦
      rw (found, added)
        (record {
          distinct = v.distinct;
          keys = λ id.
              ground
                (arith, lookup-insert p.id id (spread old p) s.by_id, v.keys id, eq_iff p.id id);
          own_id = λ id q e.
              ground (
                arith,
                lookup-insert p.id id (spread old p) s.by_id,
                eq_iff p.id id,
                v.own_id id q,
              );
        })
]

removed-IsValid :
    (s : ParticipantsState) (id : String) → IsValid s → IsValid (removed s id (lookup id s.by_id))
unfolding removed
removed-IsValid s id v = elim (Option-cases (lookup id s.by_id)) [
  | inl new ↦ rw (new, removed) v
  | inr (old, found) ↦
      rw (found, removed)
        (record {
          distinct = Distinct-remove id s.order v.distinct;
          keys = λ j.
              ground (arith, contains-remove j id s.order, lookup-erase id j s.by_id, v.keys j);
          own_id = λ j q e. ground (arith, lookup-erase id j s.by_id, v.own_id j q);
        })
]

-- A change of one entry that leaves its id alone.
update-IsValid :
    (s : ParticipantsState) (id : String) (change : ParticipantInfo → ParticipantInfo)
    → ((p : ParticipantInfo) → (change p).id ≡ p.id)
    → IsValid s
    → IsValid (update s id change (lookup id s.by_id))
update-IsValid s id change same v = elim (Option-cases (lookup id s.by_id)) [
  | inl new ↦ rw new v
  | inr (old, found) ↦ rw found (record {
    distinct = v.distinct;
    keys = λ j. ground (arith, lookup-insert id j (change old) s.by_id, v.keys j, eq_iff id j);
    own_id = λ j q e. ground (
      arith,
      lookup-insert id j (change old) s.by_id,
      eq_iff id j,
      v.own_id j q,
      v.own_id id old,
      same old,
    );
  })
]

-- BULK_SET: each entry set comes from the list, and each id of the list has one.
bulk_set-lookup :
    (by_id : Dict ParticipantInfo) (ps : List ParticipantInfo) (id : String)
    → is_some (lookup id (bulk_set by_id ps))
      ≡ (contains id (map (λ p. p.id) ps) || is_some (lookup id by_id))
unfolding bulk_set
bulk_set-lookup by_id [] id = refl
bulk_set-lookup by_id (p ∷ ps) id =
    ground (arith, bulk_set-lookup (insert p.id p by_id) ps id, lookup-insert p.id id p by_id)

abbrev OwnIds : Dict ParticipantInfo → Type 0
OwnIds d = (id : String) (p : ParticipantInfo) → lookup id d ≡ some p → p.id ≡ id

OwnIds-insert :
    (id : String) (q : ParticipantInfo) (d : Dict ParticipantInfo)
    → q.id ≡ id
    → OwnIds d
    → OwnIds (insert id q d)
OwnIds-insert id q d e own j p f = ground (arith, lookup-insert id j q d, eq_iff id j, own j p)

OwnIds-bulk_set :
    (by_id : Dict ParticipantInfo) (ps : List ParticipantInfo)
    → OwnIds by_id
    → OwnIds (bulk_set by_id ps)
unfolding bulk_set
OwnIds-bulk_set by_id [] own = own
OwnIds-bulk_set by_id (p ∷ ps) own =
    OwnIds-bulk_set (insert p.id p by_id) ps (OwnIds-insert p.id p by_id refl own)

bulk_set-IsValid :
    (ps : List ParticipantInfo)
    → Distinct (map (λ p. p.id) ps)
    → IsValid (record { by_id = bulk_set [] ps; order = map (λ p. p.id) ps })
bulk_set-IsValid ps d = record {
  distinct = d;
  keys = λ id. ground (arith, bulk_set-lookup [] ps id);
  own_id = OwnIds-bulk_set [] ps (λ id p e. cc);
}

-- SPEAKING_CHANGED rebuilds the entries of the ids in the order.
speaking-lookup :
    (old : Dict ParticipantInfo) (speakers : List String) (by_id : Dict ParticipantInfo)
    (ids : List String) (id : String)
    → is_some (lookup id (speaking old speakers by_id ids))
      ≡ (contains id ids || is_some (lookup id by_id))
unfolding speaking
speaking-lookup old speakers by_id [] id = refl
speaking-lookup old speakers by_id (j ∷ ids) id = ground (
  arith,
  speaking-lookup old speakers (insert j (heard old speakers j) by_id) ids id,
  lookup-insert j id (heard old speakers j) by_id,
)

heard_id :
    (old : Dict ParticipantInfo) (speakers : List String) (id : String)
    → OwnIds old
    → is_some (lookup id old) ≡ true
    → (heard old speakers id).id ≡ id
heard_id old speakers id own known = elim (Option-cases (lookup id old)) [
  | inl none_found ↦ ground arith
  | inr (p, found) ↦ rw found (own id p found)
]

OwnIds-speaking :
    (old : Dict ParticipantInfo) (speakers : List String) (by_id : Dict ParticipantInfo)
    (ids : List String)
    → OwnIds old
    → ((id : String) → contains id ids ≡ true → is_some (lookup id old) ≡ true)
    → OwnIds by_id
    → OwnIds (speaking old speakers by_id ids)
unfolding speaking
OwnIds-speaking old speakers by_id [] o k own = own
OwnIds-speaking old speakers by_id (j ∷ ids) o k own =
    OwnIds-speaking old speakers (insert j (heard old speakers j) by_id) ids o
      (λ id h. k id (ground arith))
      (OwnIds-insert j (heard old speakers j) by_id
        (heard_id old speakers j o (k j (ground (arith, eq_iff j j)))) own)

-- `order` stays free of repetitions, it stays the list of the keys of `byId`, and each entry keeps the
-- id of its key, under every action; of a bulk set the ids must be distinct.
pub reducer-IsValid :
    (s : ParticipantsState) (a : Action)
    → IsProper a
    → IsValid s
    → IsValid (participants_reducer s a)
unfolding participants_reducer
reducer-IsValid s (participant_added p) h v = added-IsValid s p v
reducer-IsValid s (participant_removed id) h v = removed-IsValid s id v
reducer-IsValid s (participants_bulk_set ps) h v = bulk_set-IsValid ps h
reducer-IsValid s (speaking_changed speakers) h v = record {
  distinct = v.distinct;
  keys = λ id. ground (arith, speaking-lookup s.by_id speakers [] s.order id);
  own_id =
      OwnIds-speaking s.by_id speakers [] s.order v.own_id (λ id e. ground (arith, v.keys id))
        (λ id p e. cc);
}
reducer-IsValid s participants_reset h v = record {
  distinct = tt;
  keys = λ id. refl;
  own_id = λ id p e. cc;
}
reducer-IsValid s (hand_raised id) h v = update-IsValid s id _ (λ p. refl) v
reducer-IsValid s (hand_lowered id) h v = update-IsValid s id _ (λ p. refl) v
reducer-IsValid s (participant_media_changed id m c) h v = update-IsValid s id _ (λ p. refl) v
reducer-IsValid s (participant_role_changed id r) h v = update-IsValid s id _ (λ p. refl) v
reducer-IsValid s _ h v = v
