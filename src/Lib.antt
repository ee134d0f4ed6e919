-- ===== src/Lib.antt =====
-- The web application of the OpenTalk plugin for Mattermost (webapp/src): its Redux store, the
-- signaling connection to an OpenTalk room, the controller that joins, keeps and leaves a conference,
-- the plugin's handlers and calls of its server, and the hooks that place its windows.
--
-- The program. The controller (webapp/src/conference/controller.ts) holds the active client and the
-- active LiveKit room. A client delegates to a `ConferenceRoom`
-- (webapp/src/conference/signaling/conference_room.ts), which asks the plugin's server for a ticket,
-- opens a socket to the room server, and turns the frames of the socket into events. The controller's
-- handlers of these events, and of those of the LiveKit room, write to the store
-- (webapp/src/store/*.ts), from which the user interface is drawn. A drop that may be recovered from
-- starts an auto-rejoin. The plugin (webapp/src/plugin.ts) hears from the host application about calls
-- that ring and meetings that end, writes to the same store, and has the controller leave.
--
-- The files.
--   Base             names, tests and dictionaries that all modules share
--   Store/Action     the actions of all slices (the action creators of webapp/src/store/slice_*.ts)
--   Store/Participants, Session, Tracks, Calls, Notice, Root, Selectors
--                    the reducers of webapp/src/store: slice_participants.ts, slice_session.ts,
--                    slice_tracks.ts, slice_incoming_calls.ts and slice_active_meetings.ts,
--                    slice_notice.ts and slice_oauth.ts, and reducer.ts with the selectors of
--                    webapp/src/util/selectors.ts
--   Signaling/Value, Case, Wire
--                    untyped values, names and frames (frame.ts, socket.ts and event_listener.ts of
--                    webapp/src/conference/signaling)
--   Signaling/Socket the heartbeat of webapp/src/conference/signaling/socket.ts
--   Signaling/RoomState, Messages, Room
--                    the state, the frame handlers and the methods of `ConferenceRoom`
--   Conference/Status
--                    the user's custom status (webapp/src/conference/status.ts)
--   Conference/Client
--                    the client of a room, with its tickets (webapp/src/conference/client.ts)
--   Conference/Media, Devices, Picker
--                    the local microphone and camera (room.ts and tracks.ts of
--                    webapp/src/conference/livekit), the devices and their settings (devices.ts), and
--                    the picker for a shared screen (screen_picker.ts)
--   Controller/State, Join, Events, Local, Calls
--                    the module state and the teardown of webapp/src/conference/controller.ts;
--                    joining and rejoining; the handlers; the toggles and commands of the local user;
--                    leaving, ending and the step function
--   Plugin/Entry     the websocket handlers of webapp/src/plugin.ts
--   Plugin/Ringtone  the setting for rings (webapp/src/user_settings.ts)
--   Plugin/Rest      the calls of the plugin's server (webapp/src/client/rest.ts)
--   Plugin/Start     the button that starts a meeting, and the display name
--                    (webapp/src/components/channel_header_button/action.ts,
--                    webapp/src/util/display_name.ts)
--   Controller/Rejoining
--                    the steps of its auto-rejoin, one attempt after another
--   Meeting          a room with the controller that listens to its client
--   Hooks/Draggable, Resizable, AutoHide, LayoutMode, Grid, Duration
--                    use_draggable.ts, use_resizable.ts, use_auto_hide.ts and use_layout_mode.ts of
--                    webapp/src/hooks, over the integers of Hooks/Pixels, and `bestGridFit` of
--                    use_grid_dimensions.ts there, over any numbers with an order; use_meeting_duration.ts
--   Components/Ringing
--                    which window shows a call that rings, and its buttons (incoming_call_modal,
--                    switch_call_modal and channel_call_toast of webapp/src/components); its child
--                    Window has the effects of incoming_call_modal: sound, timer, keys and buttons
--   Components/Layouts, Leaving, Notices
--                    whom the layouts of expanded_view and the strip of meeting_mini_bar show, their
--                    hangup buttons with the prompt of leave_call_modal, and notice_banner
--   Tests            the theorems at concrete inputs
-- Proofs stand in modules below the definitions, or beside them, that are named for what they prove.
--
-- How code corresponds to definitions. A reducer is a function from a slice and an action to a slice.
-- Objects with text keys are association lists (Base/Objects); an optional field is an `Option`. A
-- room and the controller are records, each method and each handler is a function between them, and
-- what they do to the world is put on a log, newest first. `step` is one thing that can happen, `run`
-- a sequence of them.
-- * A handler runs to its end before anything else happens, as in JavaScript. What follows an `await`
--   is a value of its own: in a room the flags `ticket_pending` and `waiting`; in the controller the
--   continuations that wait in `tearing_down` or stand in `ready`.
-- * A promise settles at most once, and a socket has no event before it is opened: `Room.step` asks
--   for that.
-- * An exception in a frame handler is caught where the socket parses its message, and becomes an
--   `error` event: `thrown`.
-- * Fields of a frame are untyped values. Where a type of the protocol says text, another value counts
--   as undefined (`text`).
-- * The packages that convert the keys of a frame are parameters, with what the code relies on of them
--   as hypotheses (Signaling/Wire/Keys). A room is modelled above the socket, with frames whose keys
--   are converted. The ticket of the server's answer is a text, and its other fields are texts or absent.
-- * The time, the locale, the setting for muted joins and whether `localStorage` is usable are
--   arguments or parts of a state. Functions are structurally recursive; two have
--   fuel. The digits of a number (`decimal`) have one more than the number, which has no more digits
--   than that; the rounds of effects of the window for calls (`render`) have two more than there are
--   calls, of which each round but the last two takes one away.
-- * The handlers of a room's events in the controller, and the room itself, are modelled apart and put
--   together in Meeting, where what a room emits is delivered at once. The tracks of a LiveKit room
--   (Conference/Media) stay apart from the controller, which is given what the room answers.
-- * A component is a state with the effects that run after each render; what it does not show is not
--   clicked. Its texts and styles are left out.
-- * Positions and sizes on the screen are whole pixels. What a page measures comes with each event.
-- * The numbers of a grid's tiles are a parameter with their arithmetic; its theorem asks that `>`
--   orders them, as it does JavaScript's numbers except `NaN`.
-- * The path of a request is the list of its segments; a body is the value that it parses to.
--
-- Not modelled: the markup of the React components, the other hooks, the LiveKit SDK and the events that
-- its wrapper passes on, `fetch`, the text of JSON in the socket, the parsing of stored
-- positions, and the registration of the plugin's parts. They are input and output, or code of others
-- that this code calls. The part of the plugin that runs in the server is written in Go and not part of
-- this library.
pub mod Base
pub mod Store
pub mod Signaling
pub mod Conference
pub mod Controller
pub mod Meeting
pub mod Plugin
pub mod Hooks
pub mod Components
pub mod Tests
