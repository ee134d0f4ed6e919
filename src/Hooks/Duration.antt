-- ===== src/Hooks/Duration.antt =====
-- How long a meeting lasts, as text (webapp/src/hooks/use_meeting_duration.ts, and the duration in
-- webapp/src/components/post_type_meeting/component.tsx).
pub mod Reading
use Prim.Native.Nat.{◌/◌}
use Prim.Native.String.{◌++◌}
use mattermost_plugin_openta.Base.{
  ℕ, ◌-◌, ◌%◌, String, Option, none, some, ltb, decimal, if◌then◌else◌,
}

-- `s.padStart(2, '0')`
abbrev pub pad_start : String → String
pad_start String.[] = "00"
pad_start (String.◌∷◌ c String.[]) = "0" ++ String.◌∷◌ c String.[]
pad_start (String.◌∷◌ c (String.◌∷◌ d s)) = String.◌∷◌ c (String.◌∷◌ d s)

-- `formatDuration` of the hook.
unfoldable pub format_duration : (elapsed_sec : ℕ) → String
format_duration elapsed_sec =
    let hours = elapsed_sec / 3600 in
    let minutes = elapsed_sec % 3600 / 60 in
    let padded_sec = pad_start (decimal (elapsed_sec % 60)) in
    if ltb 0 hours
    then decimal hours ++ (":" ++ (pad_start (decimal minutes) ++ (":" ++ padded_sec)))
    else decimal minutes ++ (":" ++ padded_sec)

-- `useMeetingDuration` at a time in milliseconds: before the join it is 0.
unfoldable pub meeting_duration : (joined_at : Option ℕ) → (now : ℕ) → String
meeting_duration none now = ""
meeting_duration (some joined_at) now = format_duration ((now - joined_at) / 1000)

-- `formatDuration` of the post.
unfoldable pub post_duration : (seconds : ℕ) → String
post_duration seconds = decimal (seconds / 60) ++ (":" ++ pad_start (decimal (seconds % 60)))
