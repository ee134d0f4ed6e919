-- ===== src/Plugin/Rest.antt =====
-- The calls of the plugin's server (webapp/src/client/rest.ts): the request of each, and what is made of
-- its answer. A path is the list of its segments, each of which is encoded as a whole.
use Prim.Native.Char.{char}
use Prim.Native.String.{◌++◌}
use package.text.Mathlib.Text.{starts_with}
use mattermost_plugin_openta.Base.{
  ℕ, zero, suc, String, Bool, false, Option, none, some, List, [], ◌∷◌, Dict, leb, nat_eq, ◌&&◌,
  ◌||◌, truthy, trim, split, decimal, lookup, insert, if◌then◌else◌,
}
use mattermost_plugin_openta.Signaling.Value.{Value, Fields, field, end, bool, str, get, text}
use mattermost_plugin_openta.Plugin.Entry.{MeResponse}

pub data Method : Type 0 where
  get_request post_request : Method

pub record Request : Type 0 where
  pub method : Method
  pub path : List String
  pub headers : Dict String
  pub body : Fields

-- The rejection of `fetch` or `json()`, an error that `rest.ts` throws, or its result.
pub record Failure : Type 0 where
  pub message : String
  pub status : Option ℕ
  pub existing : Option Value

pub data Result {ℓ} (A : Type ℓ) : Type ℓ where
  ok : A → Result A
  failed : Failure → Result A

-- A call without a result.
pub data Done : Type 0 where
  done : Done

-- A settled `fetch`; the body as a text, and as the value that it parses to.
pub data Answer : Type 0 where
  refused : (message : String) → Answer
  answered : (status : ℕ) → (body : String) → (json : Value) → Answer
  -- a body that is no JSON, with the parser's message
  unreadable : (status : ℕ) → (body message : String) → Answer

-- `r.ok`
abbrev pub is_ok : ℕ → Bool
is_ok status = leb 200 status && leb status 299

abbrev pub failure : String → Failure
failure message = record { message = message; status = none; existing = none }

abbrev semicolon : String → List String
semicolon s = split (char 59 tt) s

abbrev drop_chars : ℕ → String → String
drop_chars zero s = s
drop_chars (suc n) String.[] = String.[]
drop_chars (suc n) (String.◌∷◌ c s) = drop_chars n s

-- The token in `document.cookie`.
abbrev find_token : List String → Option String
find_token [] = none
find_token (c ∷ cs) =
    let d = trim c in if starts_with d "MMCSRF=" then some (drop_chars 7 d) else find_token cs

abbrev with_token : Option String → Dict String → Dict String
with_token none headers = headers
with_token (some token) headers =
    if truthy token then insert "X-CSRF-Token" token headers else headers

unfoldable pub csrf_headers : (cookie : String) → Dict String
csrf_headers cookie =
    with_token (find_token (semicolon cookie)) (("X-Requested-With", "XMLHttpRequest") ∷ [])

abbrev post : (cookie : String) → List String → Fields → Request
post cookie path body = record {
  method = post_request;
  path = path;
  headers = ("Content-Type", "application/json") ∷ csrf_headers cookie;
  body = body;
}

unfoldable pub connection_status_request : Request
connection_status_request = record {
  method = get_request;
  path = "api" ∷ "v1" ∷ "me" ∷ [];
  headers = [];
  body = end;
}

abbrev is_true_value : Value → Bool
is_true_value (bool b) = b
is_true_value _ = false

abbrev flag : Value → Option Bool
flag (bool b) = some b
flag _ = none

-- The answer as the handlers read it.
abbrev me_of : Value → MeResponse
me_of v = record {
  connected = is_true_value (get "connected" v);
  email = text (get "email" v);
  ringtone_enabled = flag (get "ringtone_enabled" v);
}

abbrev disconnected_me : MeResponse
disconnected_me = record { connected = false; email = none; ringtone_enabled = none }

-- `getConnectionStatus`
unfoldable pub get_connection_status : Answer → Result MeResponse
get_connection_status (refused message) = failed (failure message)
get_connection_status (answered status body json) =
    if is_ok status then ok (me_of json) else ok disconnected_me
get_connection_status (unreadable status body message) =
    if is_ok status then failed (failure message) else ok disconnected_me

unfoldable pub create_meeting_request : (cookie channel_id device_secret : String) → Request
create_meeting_request cookie channel_id device_secret =
    post cookie ("api" ∷ "v1" ∷ "meetings" ∷ [])
      (field "channel_id" (str channel_id) (field "device_secret" (str device_secret) end))

abbrev text_or : String → Option String → String
text_or other none = other
text_or other (some s) = s

-- The error of a meeting that there is already.
abbrev conflict : Value → Failure
conflict json = record {
  message = text_or "meeting already active" (text (get "error" json));
  status = some 409;
  existing = some json;
}

abbrev status_failure : String → ℕ → Failure
status_failure what status = failure (what ++ ": " ++ decimal status)

-- `createMeeting`
unfoldable pub create_meeting : Answer → Result Value
create_meeting (refused message) = failed (failure message)
create_meeting (answered status body json) =
    if nat_eq status 409
    then failed (conflict json)
    else if is_ok status
    then ok json
    else failed (status_failure "createMeeting failed" status)
create_meeting (unreadable status body message) =
    if nat_eq status 409 || is_ok status
    then failed (failure message)
    else failed (status_failure "createMeeting failed" status)

abbrev with_resumption : Option String → Fields → Fields
with_resumption none fs = fs
with_resumption (some s) fs = if truthy s then field "resumption" (str s) fs else fs

unfoldable pub join_meeting_request :
    (cookie room_id channel_id device_secret : String) → (resumption : Option String) → Request
join_meeting_request cookie room_id channel_id device_secret resumption =
    post cookie ("api" ∷ "v1" ∷ "meetings" ∷ room_id ∷ "join" ∷ []) (
      field "channel_id" (str channel_id)
        (field "device_secret" (str device_secret) (with_resumption resumption end)))

abbrev join_failure : ℕ → String → Failure
join_failure status body = failure ("joinMeeting " ++ decimal status ++ ": " ++ body)

-- `joinMeeting`
unfoldable pub join_meeting : Answer → Result Value
join_meeting (refused message) = failed (failure message)
join_meeting (answered status body json) =
    if is_ok status then ok json else failed (join_failure status body)
join_meeting (unreadable status body message) =
    if is_ok status then failed (failure message) else failed (join_failure status body)

abbrev expect : (what : String) → (fine : ℕ → Bool) → Answer → Result Done
expect what fine (refused message) = failed (failure message)
expect what fine (answered status body json) =
    if fine status then ok done else failed (status_failure what status)
expect what fine (unreadable status body message) =
    if fine status then ok done else failed (status_failure what status)

abbrev channel_body : String → Fields
channel_body channel_id = field "channel_id" (str channel_id) end

unfoldable pub heartbeat_request : (cookie channel_id : String) → Request
heartbeat_request cookie channel_id =
    post cookie ("api" ∷ "v1" ∷ "meetings" ∷ "heartbeat" ∷ []) (channel_body channel_id)

-- `heartbeat`
unfoldable pub heartbeat : Answer → Result Done
heartbeat a = expect "heartbeat failed" is_ok a

unfoldable pub end_meeting_request : (cookie channel_id : String) → Request
end_meeting_request cookie channel_id =
    post cookie ("api" ∷ "v1" ∷ "meetings" ∷ "end" ∷ []) (channel_body channel_id)

-- `endMeeting`
unfoldable pub end_meeting : Answer → Result Done
end_meeting a = expect "endMeeting failed" is_ok a

unfoldable pub dismiss_request : (cookie channel_id room_id : String) → Request
dismiss_request cookie channel_id room_id =
    post cookie ("api" ∷ "v1" ∷ "meetings" ∷ "dismiss" ∷ [])
      (field "channel_id" (str channel_id) (field "room_id" (str room_id) end))

-- `dismissIncomingCall`
unfoldable pub dismiss_incoming_call : Answer → Result Done
dismiss_incoming_call a = expect "dismiss failed" (λ s. is_ok s || nat_eq s 204) a

unfoldable pub ringtone_request : (cookie : String) → (enabled : Bool) → Request
ringtone_request cookie enabled =
    post cookie ("api" ∷ "v1" ∷ "ringtone" ∷ []) (field "enabled" (bool enabled) end)

-- `setRingtonePref`
unfoldable pub set_ringtone_pref : Answer → Result Done
set_ringtone_pref a = expect "setRingtonePref failed" is_ok a

abbrev secret_key : String
secret_key = "opentalk:device-secret:v1"

abbrev new_secret : (drawn : String) → Dict String → Dict String × String
new_secret drawn entries = (insert secret_key drawn entries, drawn)

abbrev secret_with : Option String → (drawn : String) → Dict String → Dict String × String
secret_with none drawn entries = new_secret drawn entries
secret_with (some s) drawn entries = if truthy s then (entries, s) else new_secret drawn entries

-- `getOrCreateDeviceSecret`; `drawn` is the text of 32 random bytes. The storage afterwards, and the
-- secret.
unfoldable pub get_or_create_device_secret : (drawn : String) → Dict String → Dict String × String
get_or_create_device_secret drawn entries = secret_with (lookup secret_key entries) drawn entries
