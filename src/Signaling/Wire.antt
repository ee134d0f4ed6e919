-- ===== src/Signaling/Wire.antt =====
-- Frames: webapp/src/conference/signaling/frame.ts, `snakeCaseActionValues` of socket.ts and
-- `normalize` of event_listener.ts.
pub mod Keys
pub mod RoundTrip
use mattermost_plugin_openta.Base.{
  String, Bool, true, false, ◌&&◌, ◌||◌, Option, none, some, ◌==◌, if◌then◌else◌,
}
use mattermost_plugin_openta.Signaling.Value.{
  Value, undefined, null, bool, num, str, arr, obj, Items, nil, cons, Fields, end, field, get_field,
  get, ◌or_else◌,
}
use mattermost_plugin_openta.Signaling.Case.{camel_to_snake, snake_to_camel}

-- A frame as the code above the socket sees it: `payload` is `{action, ...rest}`.
pub record Frame : Type 0 where
  pub namespace : String
  pub action : String
  pub rest : Fields

-- `{...fs, ...gs}` on own properties: a later one takes the place of an earlier one.
set_field : String → Value → Fields → Fields
set_field k v end = field k v end
set_field k v (field j w fs) = if j == k then field k v fs else field j w (set_field k v fs)

pub spread : Fields → Fields → Fields
spread fs end = fs
spread fs (field k v gs) = spread (set_field k v fs) gs

-- `buildFrame(namespace, action, payload)`
unfoldable pub build_frame : String → String → Fields → Value
unfolding spread set_field
build_frame namespace action payload = obj (
    field "namespace" (str namespace)
      (field "payload" (obj (spread (field "action" (str action) end) payload)) end))

-- The value of a property in `snakeCaseActionValues`, given its rewritten form.
abbrev pub action_value : String → Value → Value → Value
action_value k (str a) rest = if k == "action" then str (camel_to_snake a) else str a
action_value k v rest = rest

mutual
  pub snake_case_action_values : Value → Value
  snake_case_action_values (arr xs) = arr (snake_case_items xs)
  snake_case_action_values (obj fs) = obj (snake_case_fields fs)
  snake_case_action_values undefined = undefined
  snake_case_action_values null = null
  snake_case_action_values (bool b) = bool b
  snake_case_action_values (num n) = num n
  snake_case_action_values (str s) = str s

  pub snake_case_items : Items → Items
  snake_case_items nil = nil
  snake_case_items (cons v xs) = cons (snake_case_action_values v) (snake_case_items xs)

  pub snake_case_fields : Fields → Fields
  snake_case_fields end = end
  snake_case_fields (field k v fs) =
      field k (action_value k v (snake_case_action_values v)) (snake_case_fields fs)

-- `send`, up to the text of the frame; `snakecase_keys` is the package's `snakecaseKeys` with `deep`.
unfoldable pub to_wire : (snakecase_keys : Value → Value) → Value → Value
to_wire snakecase_keys payload = snake_case_action_values (snakecase_keys payload)

-- What `onmessage` makes of a parsed text; `camelcase_keys` is the package's `camelcaseKeys` with `deep`.
unfoldable pub from_wire : (camelcase_keys : Value → Value) → Value → Value
from_wire camelcase_keys raw = camelcase_keys raw

-- The payload without `action` and `message`.
drop_action : Fields → Fields
drop_action end = end
drop_action (field k v fs) =
    if (k == "action") || (k == "message") then drop_action fs else field k v (drop_action fs)

with_action : String → Value → Fields → Option Frame
unfolding drop_action
with_action namespace (str a) fs =
    some (record { namespace = namespace; action = snake_to_camel a; rest = drop_action fs })
with_action namespace _ fs = none

with_payload : Value → Value → Option Frame
unfolding with_action
with_payload (str namespace) (obj fs) =
    with_action namespace (get_field "action" fs or_else get_field "message" fs) fs
with_payload _ _ = none

-- `normalize(raw)`. An array passes for an object in the source too, and has neither property.
unfoldable pub normalize : Value → Option Frame
unfolding with_payload
normalize (obj fs) = with_payload (get_field "namespace" fs) (get_field "payload" fs)
normalize _ = none
