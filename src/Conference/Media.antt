-- ===== src/Conference/Media.antt =====
-- The local tracks of `LiveKitRoom` (webapp/src/conference/livekit/room.ts) with their publication and
-- withdrawal (webapp/src/conference/livekit/tracks.ts). Calls of the LiveKit SDK settle as events.
pub mod Phases
use mattermost_plugin_openta.Base.{
  ℕ, suc, Bool, true, false, Option, none, some, List, [], ◌∷◌, nat_eq, is_some, if◌then◌else◌,
}

-- The publication that callers share: before and after the device has given a track.
pub data Publishing : Type 0 where
  acquiring : Publishing
  publishing : (track : ℕ) → Publishing

-- What the room keeps of one device. Tracks have numbers.
pub record Source : Type 0 where
  -- `micTrack`, `camTrack`
  pub track : Option ℕ
  -- `micPublish`, `camPublish`
  pub publish : Option Publishing
  -- the tracks whose `unpublishTrack` is awaited
  pub unpublishing : List ℕ
  -- what the SDK has published
  pub published : List ℕ
  -- the tracks that were not stopped: the device is in use
  pub live : List ℕ
  -- the next track's number
  pub fresh : ℕ

abbrev pub holds : ℕ → List ℕ → Bool
holds n [] = false
holds n (m ∷ ms) = if nat_eq m n then true else holds n ms

abbrev pub without : ℕ → List ℕ → List ℕ
without n [] = []
without n (m ∷ ms) = if nat_eq m n then without n ms else m ∷ without n ms

abbrev pub without_first : ℕ → List ℕ → List ℕ
without_first n [] = []
without_first n (m ∷ ms) = if nat_eq m n then ms else m ∷ without_first n ms

abbrev start_publish : Option ℕ → Option Publishing → Source → Source
start_publish (some n) p s = s
start_publish none (some p) s = s
start_publish none none s = record s { publish = some acquiring }

-- `enableMic` and `enableCam`: a known track ends the call, a publication in flight is shared.
unfoldable pub enable : Source → Source
enable s = start_publish s.track s.publish s

abbrev start_unpublish : Option ℕ → Source → Source
start_unpublish none s = s
start_unpublish (some n) s = record s { unpublishing = n ∷ s.unpublishing }

-- `disableMic` and `disableCam` up to the `await`.
unfoldable pub disable : Source → Source
disable s = start_unpublish s.track s

-- `isMicEnabled` and `isCamEnabled`
abbrev pub is_enabled : Source → Bool
is_enabled s = is_some s.track

abbrev has_acquired : Option Publishing → (worked : Bool) → Source → Source
has_acquired (some acquiring) true s = record s {
  publish = some (publishing s.fresh);
  live = s.fresh ∷ s.live;
  fresh = suc s.fresh;
}
has_acquired (some acquiring) false s = record s { publish = none }
has_acquired _ worked s = s

-- `createLocalAudioTrack` or `createLocalVideoTrack` settles in `publishMic` or `publishCam`.
unfoldable pub acquire_settles : (worked : Bool) → Source → Source
acquire_settles worked s = has_acquired s.publish worked s

abbrev has_published : Option Publishing → (worked : Bool) → Source → Source
has_published (some (publishing n)) true s = record s {
  track = some n;
  publish = none;
  published = n ∷ s.published;
}
has_published (some (publishing n)) false s = record s { publish = none; live = without n s.live }
has_published _ worked s = s

-- `publishTrack` settles: the room keeps the track, or a failure stops it; `finally` ends the
-- publication that is shared.
unfoldable pub publish_settles : (worked : Bool) → Source → Source
publish_settles worked s = has_published s.publish worked s

-- `unpublishTrack` of a track settles: `unpublishMic` stops the track, and the `disable` that waited
-- forgets the room's track. A failure leaves all.
unfoldable pub unpublish_settles : ℕ → (worked : Bool) → Source → Source
unpublish_settles n worked s =
    let rest = record s { unpublishing = without_first n s.unpublishing } in
    if holds n s.unpublishing
    then (if worked
        then record rest {
          track = none;
          published = without n s.published;
          live = without n s.live;
        }
        else rest)
    else s

pub data SourceEvent : Type 0 where
  enables disables : SourceEvent
  acquired published : (worked : Bool) → SourceEvent
  unpublished : ℕ → (worked : Bool) → SourceEvent

unfoldable pub step : SourceEvent → Source → Source
step enables s = enable s
step disables s = disable s
step (acquired worked) s = acquire_settles worked s
step (published worked) s = publish_settles worked s
step (unpublished n worked) s = unpublish_settles n worked s

unfoldable pub run : List SourceEvent → Source → Source
run [] s = s
run (e ∷ es) s = run es (step e s)

abbrev pub new_source : Source
new_source = record {
  track = none;
  publish = none;
  unpublishing = [];
  published = [];
  live = [];
  fresh = 0;
}

pub record LiveKitRoom : Type 0 where
  pub mic : Source
  pub cam : Source

abbrev pub new_room : LiveKitRoom
new_room = record { mic = new_source; cam = new_source }

pub data Device : Type 0 where
  microphone camera : Device

-- A call of the room for one device, or the settling of one, leaves the other.
unfoldable pub room_step : Device → SourceEvent → LiveKitRoom → LiveKitRoom
room_step microphone e r = record r { mic = step e r.mic }
room_step camera e r = record r { cam = step e r.cam }

unfoldable pub room_run : List (Device × SourceEvent) → LiveKitRoom → LiveKitRoom
room_run [] r = r
room_run ((d, e) ∷ es) r = room_run es (room_step d e r)
