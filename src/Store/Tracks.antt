-- ===== src/Store/Tracks.antt =====
-- webapp/src/store/slice_tracks.ts
pub mod Laws
use mattermost_plugin_openta.Base.{
  String, Bool, not, ◌&&◌, Option, none, some, List, [], Dict, lookup, insert, erase, truthy_option,
  if◌then◌else◌,
}
use mattermost_plugin_openta.Store.Action.{
  Action, TrackKind, audio, video, screen, track_subscribed, track_unsubscribed,
  active_speakers_changed, tracks_reset,
}

pub record ParticipantTracks : Type 0 where
  pub audio_track_id : Option String
  pub video_track_id : Option String
  pub screen_track_id : Option String

pub record TracksState : Type 0 where
  pub per_participant : Dict ParticipantTracks
  pub active_speakers : List String

abbrev pub initial : TracksState
initial = record { per_participant = []; active_speakers = [] }

abbrev pub no_tracks : ParticipantTracks
no_tracks = record { audio_track_id = none; video_track_id = none; screen_track_id = none }

abbrev get_no_tracks : Option ParticipantTracks → ParticipantTracks
get_no_tracks none = no_tracks
get_no_tracks (some t) = t

-- `{...t, [fieldFor(kind)]: id}`, and with `none` the field deleted.
abbrev set_field : TrackKind → Option String → ParticipantTracks → ParticipantTracks
set_field audio id t = record t { audio_track_id = id }
set_field video id t = record t { video_track_id = id }
set_field screen id t = record t { screen_track_id = id }

abbrev pub is_empty : ParticipantTracks → Bool
is_empty t =
    not (truthy_option t.audio_track_id)
    && (not (truthy_option t.video_track_id) && not (truthy_option t.screen_track_id))

unsubscribed : TracksState → String → TrackKind → Option ParticipantTracks → TracksState
unsubscribed s id kind none = s
unsubscribed s id kind (some old) =
    let next = set_field kind none old in
    record s {
      per_participant =
          if is_empty next then erase id s.per_participant else insert id next s.per_participant;
    }

unfoldable pub tracks_reducer : TracksState → Action → TracksState
unfolding unsubscribed
tracks_reducer s (track_subscribed id kind track_id) =
    let old = get_no_tracks (lookup id s.per_participant) in
    record s { per_participant = insert id (set_field kind (some track_id) old) s.per_participant }
tracks_reducer s (track_unsubscribed id kind) = unsubscribed s id kind (lookup id s.per_participant)
tracks_reducer s (active_speakers_changed speakers) = record s { active_speakers = speakers }
tracks_reducer s tracks_reset = initial
tracks_reducer s _ = s
