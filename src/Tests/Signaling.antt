-- ===== src/Tests/Signaling.antt =====
-- Frames and a room on small inputs.
use mattermost_plugin_openta.Base.{lookup, ◌≡◌, refl, true, none, some, List, [], ◌∷◌}
use mattermost_plugin_openta.Signaling.Value.{Value, obj, str, end, field}
use mattermost_plugin_openta.Signaling.Case.{snake_to_camel}
use mattermost_plugin_openta.Signaling.Wire.{normalize}
use mattermost_plugin_openta.Signaling.RoomState.{Room, Storage, new_room, emit, emit_closed}
use mattermost_plugin_openta.Signaling.Room.{
  Input, connects, ticket, message, closes, step, run, connect, on_ticket, on_close,
}
use mattermost_plugin_openta.Signaling.Room.Keeps.{settlements}
use mattermost_plugin_openta.Signaling.Room.Lifecycle.{
  Inv, Balanced, run-Inv, run-Balanced, closed-settled,
}
use mattermost_plugin_openta.Signaling.Room.Token.{token_after, step-token}
use mattermost_plugin_openta.Signaling.RoomState.{read_resumption}
use mattermost_plugin_openta.Signaling.Messages.{classify, handle, on_join_success, credentials_of}
use mattermost_plugin_openta.Signaling.Room.Silence.{arrivals, leave-silences}
use mattermost_plugin_openta.Signaling.Room.{on_message, leave, errs}

abbrev empty_storage : Storage
empty_storage = record { usable = true; items = [] }

-- A join that the server closes before it is accepted.
abbrev rejected : List Input
rejected = connects "r" "c" "Alice" "secret" ∷ ticket "t" "res" "wss://x" ∷ closes (some 1006) ∷ []

abbrev ended : Room
ended = run rejected (new_room empty_storage)

run-Inv_example : Inv ended
run-Inv_example = run-Inv empty_storage rejected

run-Balanced_example : Balanced 1 ended
run-Balanced_example = run-Balanced empty_storage rejected

closed-settled_example : settlements ended.log ≡ 1
unfolding run step connect on_ticket on_close emit_closed emit new_room
closed-settled_example = closed-settled empty_storage rejected refl refl

-- A join that waits for the server's answer.
abbrev joining : Room
joining =
    run (connects "r" "c" "Alice" "secret" ∷ ticket "t" "res" "wss://x" ∷ [])
      (new_room empty_storage)

leave-silences_example :
    arrivals (run (message (str "late") ∷ errs none ∷ []) (leave joining)).log
    ≡ arrivals joining.log
leave-silences_example = leave-silences joining (message (str "late") ∷ errs none ∷ [])

-- The server accepts the join.
abbrev acceptance : Value
acceptance = obj (
    field "namespace" (str "control")
      (field "payload" (obj (field "action" (str "joinSuccess") (field "id" (str "p1") end))) end))

step-token_example :
    lookup "r" (step (message acceptance) joining).storage.items
    ≡ token_after (message acceptance) joining "r"
step-token_example = step-token (message acceptance) joining "r"

-- The token of the ticket is stored under the room, and read for the next join.
token_stored : read_resumption (step (message acceptance) joining).storage "r" ≡ some "res"
unfolding run step connect on_ticket on_message normalize classify handle on_join_success emit
    new_room snake_to_camel credentials_of
token_stored = refl
