-- ===== src/Hooks/LayoutMode.antt =====
-- The stored layout of the expanded view (webapp/src/hooks/use_layout_mode.ts).
pub mod Laws
use mattermost_plugin_openta.Base.{
  String, Option, none, some, ◌==◌, lookup, Storage, try_set_item, if◌then◌else◌,
}

pub data LayoutMode : Type 0 where
  speaker grid screen_focus : LayoutMode

abbrev storage_key : String
storage_key = "opentalk:layout-mode:v1"

abbrev pub mode_text : LayoutMode → String
mode_text speaker = "speaker"
mode_text grid = "grid"
mode_text screen_focus = "screen-focus"

-- `VALID_MODES` and `isValidLayoutMode`
abbrev pub valid_mode : String → Option LayoutMode
valid_mode s =
    if s == "speaker"
    then some speaker
    else if s == "grid"
    then some grid
    else if s == "screen-focus"
    then some screen_focus
    else none

abbrev mode_or_speaker : Option LayoutMode → LayoutMode
mode_or_speaker none = speaker
mode_or_speaker (some m) = m

abbrev stored_mode : Option String → LayoutMode
stored_mode none = speaker
stored_mode (some raw) = mode_or_speaker (valid_mode raw)

unfoldable pub read_stored_mode : Storage → LayoutMode
read_stored_mode s = if s.readable then stored_mode (lookup storage_key s.entries) else speaker

-- `setLayoutMode`: the storage and the state.
unfoldable pub set_layout_mode : LayoutMode → Storage → Storage × LayoutMode
set_layout_mode m s = (try_set_item storage_key (mode_text m) s, m)
