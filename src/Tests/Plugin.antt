-- ===== src/Tests/Plugin.antt =====
-- The plugin's theorems at a user who is in a call of the channel "c".
use mattermost_plugin_openta.Base.{
  ◌≡◌, refl, true, false, none, some, List, [], ◌∷◌, Storage, is_space,
}
use mattermost_plugin_openta.Store.Root.{initial}
use mattermost_plugin_openta.Controller.State.{Controller, Place, Attempt}
use mattermost_plugin_openta.Controller.Calls.{Happening, client_closed, timer, torn_down, runs}
use mattermost_plugin_openta.Controller.Calls
use mattermost_plugin_openta.Controller.Left.{IsLeft}
use mattermost_plugin_openta.Plugin.Ringtone.{RingSetting}
use mattermost_plugin_openta.Signaling.Value.{obj, field, str, end}
use mattermost_plugin_openta.Plugin.Rest.{csrf_headers, Answer, answered}
use mattermost_plugin_openta.Plugin.Start.{meeting_created}
use mattermost_plugin_openta.Plugin.Start.Outcome.{After, joins, created-After}
use mattermost_plugin_openta.Plugin.Entry.{
  Host, MeetingMessage, PluginEvent, meeting_ended, meeting_started, incoming_call,
  incoming_call_dismissed, kills_ring, happens, step, run,
}
use mattermost_plugin_openta.Plugin.Entry.Rings.{ring, ring_step, step-ring}
use mattermost_plugin_openta.Plugin.Entry.Own.{NoOwnRing, run-NoOwnRing}
use mattermost_plugin_openta.Plugin.Entry.Ending.{run-ended-IsLeft}

abbrev place : Place
place = record { room_id = "r"; channel_id = "c"; display_name = "Alice" }

abbrev attempt : Attempt
attempt = record {
  place = place;
  owner = none;
  notify_on_failure = true;
  join_settled = true;
  terminal_close = false;
  error_dispatched = false;
}

-- A client and a LiveKit room are up, and a rejoin is due.
abbrev in_call : Controller
in_call = record {
  root = initial;
  now = 7;
  has_store = true;
  client = some 0;
  livekit = some 1;
  heartbeat = some "c";
  tearing_down = none;
  rejoin = some (record { id = 2; place = place; attempt = 1; timer = true });
  media_restore = none;
  attempts = λ k. attempt;
  livekit_client = λ k. 0;
  german = false;
  fresh = 3;
  ready = [];
  mic_toggle = none;
  cam_toggle = none;
  screen_toggle = none;
  registry = [];
  log = [];
}

-- Only the old key has a value.
abbrev old_setting : Storage
old_setting = record {
  readable = true;
  writable = true;
  entries = ("opentalk:ringtone-enabled", "false") ∷ [];
}

abbrev setting : RingSetting
setting = record { storage = old_setting; posted = []; announced = [] }

abbrev host : Host
host = record { controller = in_call; user_id = some "alice"; rings = setting }

abbrev message : MeetingMessage
message = record {
  channel_id = "d";
  room_id = "r2";
  host_user_id = "bob";
  host_name = "Bob";
  post_id = none;
}

step-ring_example :
    ring (step (incoming_call message) host) "d" ≡ ring_step host (incoming_call message) "d"
step-ring_example = step-ring (incoming_call message) host "d"

abbrev own_message : MeetingMessage
own_message = record message { host_user_id = "alice" }

abbrev events : List PluginEvent
events =
    incoming_call message
    ∷ incoming_call own_message
    ∷ meeting_started own_message
    ∷ incoming_call_dismissed "d" "alice"
    ∷ happens timer
    ∷ kills_ring
    ∷ []

run-NoOwnRing_example : NoOwnRing (run events host)
run-NoOwnRing_example =
    run-NoOwnRing events host (refl, (refl, (refl, (refl, (refl, (refl, tt)))))) (λ j. refl)

abbrev late : List Happening
late = client_closed 0 true ∷ timer ∷ torn_down ∷ torn_down ∷ runs ∷ []

run-ended-IsLeft_example : IsLeft 0 (Calls.run late (step (meeting_ended "c") host).controller)
unfolding Calls.active_conference_channel_id
run-ended-IsLeft_example =
    run-ended-IsLeft (meeting_ended "c") host late refl refl refl
      (refl, (refl, (refl, (refl, (refl, tt)))))

-- The cookie's token, and a meeting that is there already.
token_in_cookie :
    csrf_headers "a=b; MMCSRF=tok ;c=d"
    ≡ ("X-Requested-With", "XMLHttpRequest") ∷ ("X-CSRF-Token", "tok") ∷ []
unfolding csrf_headers is_space
token_in_cookie = refl

abbrev existing : Answer
existing = answered 409 "" (obj (field "room_id" (str "r9") end))

created-After_example :
    After (joins "r9") "c" "Alice" in_call (meeting_created "c" "Alice" existing in_call)
created-After_example = created-After "c" "Alice" existing in_call
