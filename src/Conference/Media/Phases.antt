-- ===== src/Conference/Media/Phases.antt =====
-- A device's track as a machine of five phases, which the flags and lists of the room implement.
use mattermost_plugin_openta.Base.{
  ℕ, suc, ◌≡◌, refl, Bool, true, false, none, some, List, [], ◌∷◌, nat_eq, ap, arith, ◌∙◌,
  if◌then◌else◌,
}
use mattermost_plugin_openta.Conference.Media.{
  acquiring, publishing, Source, enable, disable, acquire_settles, publish_settles,
  unpublish_settles, SourceEvent, enables, disables, acquired, published, unpublished, step, run,
  LiveKitRoom, Device, microphone, camera, room_step, room_run,
}

-- Where a device is: off, asked for, given but not yet published, on, on but being withdrawn.
pub data Phase : Type 0 where
  off waits : Phase
  publishes on withdraws : (track : ℕ) → Phase

-- The machine; the number is that of the next track.
abbrev pub phase_step : SourceEvent → Phase × ℕ → Phase × ℕ
phase_step enables (off, k) = (waits, k)
phase_step disables (on n, k) = (withdraws n, k)
phase_step (acquired true) (waits, k) = (publishes k, suc k)
phase_step (acquired false) (waits, k) = (off, k)
phase_step (published true) (publishes n, k) = (on n, k)
phase_step (published false) (publishes n, k) = (off, k)
phase_step (unpublished m worked) (withdraws n, k) =
    if nat_eq n m then ((if worked then off else on n), k) else (withdraws n, k)
phase_step _ p = p

abbrev pub phase_run : List SourceEvent → Phase × ℕ → Phase × ℕ
phase_run [] p = p
phase_run (e ∷ es) p = phase_run es (phase_step e p)

-- The room's variables in a phase: it knows the track that is on, and nothing else is published or
-- in use.
abbrev pub variables : Phase × ℕ → Source
variables (off, k) = record {
  track = none;
  publish = none;
  unpublishing = [];
  published = [];
  live = [];
  fresh = k;
}
variables (waits, k) = record {
  track = none;
  publish = some acquiring;
  unpublishing = [];
  published = [];
  live = [];
  fresh = k;
}
variables (publishes n, k) = record {
  track = none;
  publish = some (publishing n);
  unpublishing = [];
  published = [];
  live = n ∷ [];
  fresh = k;
}
variables (on n, k) = record {
  track = some n;
  publish = none;
  unpublishing = [];
  published = n ∷ [];
  live = n ∷ [];
  fresh = k;
}
variables (withdraws n, k) = record {
  track = some n;
  publish = none;
  unpublishing = n ∷ [];
  published = n ∷ [];
  live = n ∷ [];
  fresh = k;
}

-- No call turns the device off while an earlier one still withdraws its track.
abbrev pub is_serial : List SourceEvent → Phase × ℕ → Bool
is_serial [] p = true
is_serial (disables ∷ es) (withdraws n, k) = false
is_serial (e ∷ es) p = is_serial es (phase_step e p)

withdraw-phase :
    (n m k : ℕ) (worked : Bool)
    → unpublish_settles m worked (variables (withdraws n, k))
      ≡ variables (phase_step (unpublished m worked) (withdraws n, k))
unfolding unpublish_settles
withdraw-phase n m k true = ground arith
withdraw-phase n m k false = ground arith

withdraw_none :
    (m : ℕ) (worked : Bool) (p : Phase) (k : ℕ)
    → (variables (p, k)).unpublishing ≡ []
    → unpublish_settles m worked (variables (p, k)) ≡ variables (p, k)
unfolding unpublish_settles
withdraw_none m worked p k h = rw h refl

step-phase :
    (e : SourceEvent) (es : List SourceEvent) (p : Phase) (k : ℕ)
    → is_serial (e ∷ es) (p, k) ≡ true
    → (step e (variables (p, k)) ≡ variables (phase_step e (p, k)))
      × (is_serial es (phase_step e (p, k)) ≡ true)
unfolding step enable disable acquire_settles publish_settles
step-phase enables es off k h = (refl, h)
step-phase enables es waits k h = (refl, h)
step-phase enables es (publishes n) k h = (refl, h)
step-phase enables es (on n) k h = (refl, h)
step-phase enables es (withdraws n) k h = (refl, h)
step-phase disables es off k h = (refl, h)
step-phase disables es waits k h = (refl, h)
step-phase disables es (publishes n) k h = (refl, h)
step-phase disables es (on n) k h = (refl, h)
step-phase disables es (withdraws n) k h = cc
step-phase (acquired true) es off k h = (refl, h)
step-phase (acquired false) es off k h = (refl, h)
step-phase (acquired true) es waits k h = (refl, h)
step-phase (acquired false) es waits k h = (refl, h)
step-phase (acquired true) es (publishes n) k h = (refl, h)
step-phase (acquired false) es (publishes n) k h = (refl, h)
step-phase (acquired true) es (on n) k h = (refl, h)
step-phase (acquired false) es (on n) k h = (refl, h)
step-phase (acquired true) es (withdraws n) k h = (refl, h)
step-phase (acquired false) es (withdraws n) k h = (refl, h)
step-phase (published true) es off k h = (refl, h)
step-phase (published false) es off k h = (refl, h)
step-phase (published true) es waits k h = (refl, h)
step-phase (published false) es waits k h = (refl, h)
step-phase (published true) es (publishes n) k h = (refl, h)
step-phase (published false) es (publishes n) k h = (ground arith, h)
step-phase (published true) es (on n) k h = (refl, h)
step-phase (published false) es (on n) k h = (refl, h)
step-phase (published true) es (withdraws n) k h = (refl, h)
step-phase (published false) es (withdraws n) k h = (refl, h)
step-phase (unpublished m worked) es off k h = (withdraw_none m worked off k refl, h)
step-phase (unpublished m worked) es waits k h = (withdraw_none m worked waits k refl, h)
step-phase (unpublished m worked) es (publishes n) k h =
    (withdraw_none m worked (publishes n) k refl, h)
step-phase (unpublished m worked) es (on n) k h = (withdraw_none m worked (on n) k refl, h)
step-phase (unpublished m worked) es (withdraws n) k h = (withdraw-phase n m k worked, h)

-- As long as no call turns a device off while an earlier one is still withdrawing its track, any
-- calls and settlings, failures included, take the room's variables through the five phases: at most
-- one track is published and in use, and it is the one the room knows or is about to publish.
pub run-phase :
    (es : List SourceEvent) (p : Phase × ℕ)
    → is_serial es p ≡ true
    → run es (variables p) ≡ variables (phase_run es p)
unfolding run
run-phase [] p h = refl
run-phase (e ∷ es) (p, k) h =
    let (here, rest) = step-phase e es p k h in
    ap (run es) here ∙ run-phase es (phase_step e (p, k)) rest

-- The events of one device, in their order.
abbrev pub events_of : Device → List (Device × SourceEvent) → List SourceEvent
events_of d [] = []
events_of microphone ((microphone, e) ∷ es) = e ∷ events_of microphone es
events_of microphone ((camera, e) ∷ es) = events_of microphone es
events_of camera ((microphone, e) ∷ es) = events_of camera es
events_of camera ((camera, e) ∷ es) = e ∷ events_of camera es

-- However calls and settlings of microphone and camera interleave, each of the two ends as if the
-- other had none.
pub room_run-apart :
    (es : List (Device × SourceEvent)) (r : LiveKitRoom)
    → room_run es r
      ≡ record { mic = run (events_of microphone es) r.mic; cam = run (events_of camera es) r.cam }
unfolding room_run room_step run
room_run-apart [] r = refl
room_run-apart ((microphone, e) ∷ es) r = room_run-apart es (room_step microphone e r)
room_run-apart ((camera, e) ∷ es) r = room_run-apart es (room_step camera e r)
