-- ===== src/Tests/Local.antt =====
-- The theorems on the local user's calls, at a call with a client and a LiveKit room.
use mattermost_plugin_openta.Base.{
  ◌≡◌, refl, true, false, none, some, List, [], ◌∷◌, contains, String,
}
use mattermost_plugin_openta.Store.Action.{audio}
use mattermost_plugin_openta.Store.Root.{initial}
use mattermost_plugin_openta.Store.Tracks.Laws.{IsValid, track}
use mattermost_plugin_openta.Signaling.RoomState.{Participant}
use mattermost_plugin_openta.Controller.State.{Controller, Place, Attempt}
use mattermost_plugin_openta.Controller.Events.{on_track_subscribed, on_track_unsubscribed}
use mattermost_plugin_openta.Controller.Local.{toggle_cam, cam_toggle_settles}
use mattermost_plugin_openta.Controller.Local.Tiles.{CamIs, toggle-CamIs}
use mattermost_plugin_openta.Controller.Local.Late.{late-unsubscribed}

abbrev place : Place
place = record { room_id = "r"; channel_id = "c"; display_name = "Alice" }

abbrev attempt : Attempt
attempt = record {
  place = place;
  owner = none;
  notify_on_failure = true;
  join_settled = true;
  terminal_close = false;
  error_dispatched = false;
}

-- A client and a LiveKit room are up, and a rejoin is due.
abbrev in_call : Controller
in_call = record {
  root = initial;
  now = 7;
  has_store = true;
  client = some 0;
  livekit = some 1;
  heartbeat = some "c";
  tearing_down = none;
  rejoin = some (record { id = 2; place = place; attempt = 1; timer = true });
  media_restore = none;
  attempts = λ k. attempt;
  livekit_client = λ k. 0;
  german = false;
  fresh = 3;
  ready = [];
  mic_toggle = none;
  cam_toggle = none;
  screen_toggle = none;
  registry = "t1" ∷ [];
  log = [];
}

no_tracks : IsValid in_call.root.tracks
no_tracks = record { good = λ j u e. cc; occupied = λ j u e. cc }

toggle-CamIs_example :
    CamIs true "p1" (cam_toggle_settles true true "p1" (toggle_cam false "p1" in_call))
toggle-CamIs_example = toggle-CamIs false "p1" 1 in_call refl refl refl no_tracks

late-unsubscribed_example :
    (track
        (on_track_unsubscribed "p2" audio
          (some "t1")
          (on_track_subscribed "p2" audio (some "t2") in_call)).root.tracks
        "p2"
        audio
      ≡ none)
    × (contains "t2"
          (on_track_unsubscribed "p2" audio
            (some "t1")
            (on_track_subscribed "p2" audio (some "t2") in_call)).registry
        ≡ true)
late-unsubscribed_example = late-unsubscribed "p2" audio "t1" "t2" in_call no_tracks refl refl refl

abbrev participant : String → Participant
participant id = record { id = some id; display_name = none; role = none }

abbrev present : List Participant
present = participant "p1" ∷ participant "p2" ∷ []
