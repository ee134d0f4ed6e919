-- ===== src/Store/Tracks/Laws.antt =====
-- The tracks slice against a map from participants and kinds to track ids.
use mattermost_plugin_openta.Base.{
  String, ◌≡◌, refl, Bool, true, false, Option, none, some, lookup, lookup-insert, lookup-erase,
  eq_iff, truthy, arith, Option-cases, inl, inr, if◌then◌else◌, ◌==◌, ◌&&◌, insert, erase,
  Bool-cases, subst,
}
use mattermost_plugin_openta.Store.Action.{
  Action, TrackKind, audio, video, screen, track_subscribed, track_unsubscribed,
  active_speakers_changed, tracks_reset,
}
use mattermost_plugin_openta.Store.Tracks.{
  ParticipantTracks, TracksState, get_no_tracks, set_field, is_empty, unsubscribed, tracks_reducer,
}

abbrev get_field : TrackKind → ParticipantTracks → Option String
get_field audio t = t.audio_track_id
get_field video t = t.video_track_id
get_field screen t = t.screen_track_id

-- The track that is known for a participant and a kind.
abbrev pub track : TracksState → String → TrackKind → Option String
track s id kind = get_field kind (get_no_tracks (lookup id s.per_participant))

abbrev same_kind : TrackKind → TrackKind → Bool
same_kind audio audio = true
same_kind video video = true
same_kind screen screen = true
same_kind _ _ = false

abbrev pub track_step :
    (String → TrackKind → Option String) → Action → String → TrackKind → Option String
track_step m (track_subscribed id k t) j l = if (id == j) && same_kind k l then some t else m j l
track_step m (track_unsubscribed id k) j l = if (id == j) && same_kind k l then none else m j l
track_step m tracks_reset j l = none
track_step m _ j l = m j l

-- No track id is empty: an id is absent or true in a test.
abbrev IsGood : Option String → Type 0
IsGood none = Unit
IsGood (some t) = truthy t ≡ true

pub record GoodTracks (t : ParticipantTracks) : Type 0 where
  pub audio_good : IsGood t.audio_track_id
  pub video_good : IsGood t.video_track_id
  pub screen_good : IsGood t.screen_track_id

pub record IsValid (s : TracksState) : Type 0 where
  -- no track id is the empty text, and
  pub good :
      (id : String) (t : ParticipantTracks) → lookup id s.per_participant ≡ some t → GoodTracks t
  -- no entry is left without a track
  pub occupied :
      (id : String) (t : ParticipantTracks)
      → lookup id s.per_participant ≡ some t
      → is_empty t ≡ false

abbrev pub IsProper : Action → Type 0
IsProper (track_subscribed id k t) = truthy t ≡ true
IsProper _ = Unit

set_field-Good :
    (k : TrackKind) (o : Option String) (t : ParticipantTracks)
    → IsGood o
    → GoodTracks t
    → GoodTracks (set_field k o t)
set_field-Good audio o t h g = ground arith
set_field-Good video o t h g = ground arith
set_field-Good screen o t h g = ground arith

-- Setting one field leaves the others.
get-set_field :
    (k l : TrackKind) (o : Option String) (t : ParticipantTracks)
    → get_field l (set_field k o t) ≡ (if same_kind k l then o else get_field l t)
get-set_field audio audio o t = refl
get-set_field audio video o t = refl
get-set_field audio screen o t = refl
get-set_field video audio o t = refl
get-set_field video video o t = refl
get-set_field video screen o t = refl
get-set_field screen audio o t = refl
get-set_field screen video o t = refl
get-set_field screen screen o t = refl

set_field-occupied :
    (k : TrackKind) (i : String) (t : ParticipantTracks)
    → truthy i ≡ true
    → is_empty (set_field k (some i) t) ≡ false
set_field-occupied audio i t h = ground arith
set_field-occupied video i t h = ground arith
set_field-occupied screen i t h = ground arith

-- With good ids an entry that is dropped as empty has no track of any kind.
is_empty-get_field :
    (l : TrackKind) (t : ParticipantTracks)
    → GoodTracks t
    → is_empty t ≡ true
    → get_field l t ≡ none
is_empty-get_field audio t g e = elim (Option-cases t.audio_track_id) [
  | inl n ↦ n
  | inr (i, n) ↦ ground (arith, g.audio_good)
]
is_empty-get_field video t g e = elim (Option-cases t.video_track_id) [
  | inl n ↦ n
  | inr (i, n) ↦ ground (arith, g.video_good)
]
is_empty-get_field screen t g e = elim (Option-cases t.screen_track_id) [
  | inl n ↦ n
  | inr (i, n) ↦ ground (arith, g.screen_good)
]

get_no_tracks-Good :
    (s : TracksState) (id : String)
    → IsValid s
    → GoodTracks (get_no_tracks (lookup id s.per_participant))
get_no_tracks-Good s id v = elim (Option-cases (lookup id s.per_participant)) [
  | inl e ↦ rw e (record { audio_good = tt; video_good = tt; screen_good = tt })
  | inr (t, e) ↦ rw e (v.good id t e)
]

-- An entry written with good, occupied tracks keeps the invariant.
insert-IsValid :
    (s : TracksState) (id : String) (t : ParticipantTracks)
    → IsValid s
    → GoodTracks t
    → is_empty t ≡ false
    → IsValid (record s { per_participant = insert id t s.per_participant })
insert-IsValid s id t v g o = record {
  good = λ j u e. elim (Bool-cases (id == j)) [
    | inl hit ↦ subst GoodTracks (ground (arith, lookup-insert id j t s.per_participant)) g
    | inr miss ↦ v.good j u (ground (arith, lookup-insert id j t s.per_participant))
  ];
  occupied = λ j u e. ground (arith, lookup-insert id j t s.per_participant, v.occupied j u);
}

erase-IsValid :
    (s : TracksState) (id : String)
    → IsValid s
    → IsValid (record s { per_participant = erase id s.per_participant })
erase-IsValid s id v = record {
  good = λ j u e. v.good j u (ground (arith, lookup-erase id j s.per_participant));
  occupied = λ j u e. ground (arith, lookup-erase id j s.per_participant, v.occupied j u);
}

unsubscribed-IsValid :
    (s : TracksState) (id : String) (k : TrackKind)
    → IsValid s
    → IsValid (unsubscribed s id k (lookup id s.per_participant))
unfolding unsubscribed
unsubscribed-IsValid s id k v = elim (Option-cases (lookup id s.per_participant)) [
  | inl e ↦ rw (e, unsubscribed) v
  | inr (old, e) ↦ elim (Bool-cases (is_empty (set_field k none old))) [
    | inl empty ↦ rw (e, unsubscribed) (rw empty (erase-IsValid s id v))
    | inr full ↦
        rw (e, unsubscribed)
          (rw full (insert-IsValid s id _ v (set_field-Good k none old tt (v.good id old e)) full))
  ]
]

-- If no entry of the slice is empty and none holds an empty id, this is so after every action; a track
-- must be subscribed under a non-empty id.
pub tracks-IsValid :
    (s : TracksState) (a : Action) → IsProper a → IsValid s → IsValid (tracks_reducer s a)
unfolding tracks_reducer
tracks-IsValid s (track_subscribed id k i) h v =
    insert-IsValid s id _ v (set_field-Good k (some i) _ h (get_no_tracks-Good s id v))
      (set_field-occupied k i _ h)
tracks-IsValid s (track_unsubscribed id k) h v = unsubscribed-IsValid s id k v
tracks-IsValid s (active_speakers_changed l) h v = record { good = v.good; occupied = v.occupied }
tracks-IsValid s tracks_reset h v = record { good = λ j u e. cc; occupied = λ j u e. cc }
tracks-IsValid s _ h v = v

unsubscribed-track :
    (s : TracksState) (id : String) (k : TrackKind) (j : String) (l : TrackKind)
    → IsValid s
    → track (unsubscribed s id k (lookup id s.per_participant)) j l
      ≡ (if (id == j) && same_kind k l then none else track s j l)
unfolding unsubscribed
unsubscribed-track s id k j l v = elim (Option-cases (lookup id s.per_participant)) [
  | inl e ↦ rw (e, unsubscribed) (ground (arith, eq_iff id j))
  | inr (old, e) ↦ elim (Bool-cases (is_empty (set_field k none old))) [
    | inl empty ↦
        rw (e, unsubscribed)
          (rw empty (
            ground (
              arith,
              lookup-erase id j s.per_participant,
              eq_iff id j,
              get-set_field k l none old,
              is_empty-get_field l (set_field k none old)
                  (set_field-Good k none old tt (v.good id old e)) empty,
            )))
    | inr full ↦
        rw (e, unsubscribed)
          (rw full (
            ground (
              arith,
              lookup-insert id j (set_field k none old) s.per_participant,
              eq_iff id j,
              get-set_field k l none old,
            )))
  ]
]

-- In a valid state a subscription sets the track of the participant and kind that it names, the end of
-- one removes it, a reset removes all, and no other track changes under any action.
pub tracks-track :
    (s : TracksState) (a : Action) (j : String) (l : TrackKind)
    → IsValid s
    → track (tracks_reducer s a) j l ≡ track_step (track s) a j l
unfolding tracks_reducer
tracks-track s (track_subscribed id k i) j l v = ground (
  arith,
  lookup-insert id j (set_field k (some i) (get_no_tracks (lookup id s.per_participant)))
      s.per_participant,
  eq_iff id j,
  get-set_field k l (some i) (get_no_tracks (lookup id s.per_participant)),
)
tracks-track s (track_unsubscribed id k) j l v = unsubscribed-track s id k j l v
tracks-track s (active_speakers_changed x) j l v = refl
tracks-track s tracks_reset j audio v = refl
tracks-track s tracks_reset j video v = refl
tracks-track s tracks_reset j screen v = refl
tracks-track s _ j l v = refl
