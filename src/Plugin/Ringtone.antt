-- ===== src/Plugin/Ringtone.antt =====
-- The setting for rings (webapp/src/user_settings.ts).
pub mod Laws
use mattermost_plugin_openta.Base.{
  String, Bool, true, false, not, Option, none, some, List, [], ◌∷◌, lookup, insert, erase,
  option_eq, Storage, try_set_item, if◌then◌else◌,
}

abbrev pub ringtone_setting_key : String
ringtone_setting_key = "opentalk:ringtone:v1"

abbrev pub legacy_ringtone_setting_key : String
legacy_ringtone_setting_key = "opentalk:ringtone-enabled"

-- The value in the storage, and whether it says that calls ring.
abbrev pub rings_in : Storage → Storage × Bool
rings_in s = (s, not (option_eq (lookup ringtone_setting_key s.entries) (some "false")))

-- The old key's value moves to the new one; a write that throws ends the read.
abbrev pub adopt : Option String → Storage → Storage × Bool
adopt none s = rings_in s
adopt (some v) s =
    if s.writable
    then rings_in (record s {
      entries = erase legacy_ringtone_setting_key (insert ringtone_setting_key v s.entries);
    })
    else (s, true)

abbrev pub read_with : Option String → Storage → Storage × Bool
read_with none s = adopt (lookup legacy_ringtone_setting_key s.entries) s
read_with (some v) s = rings_in s

-- `readRingtone`: the storage afterwards, and the result.
unfoldable pub read_ringtone : Storage → Storage × Bool
read_ringtone s =
    if s.readable then read_with (lookup ringtone_setting_key s.entries) s else (s, true)

-- The storage, the requests to the server and the events on the window, newest first.
pub record RingSetting : Type 0 where
  pub storage : Storage
  pub posted : List Bool
  pub announced : List Bool

unfoldable pub apply_ringtone_local : Bool → RingSetting → RingSetting
apply_ringtone_local enabled r = record r {
  storage = try_set_item ringtone_setting_key (if enabled then "true" else "false") r.storage;
  announced = enabled ∷ r.announced;
}

unfoldable pub write_ringtone : Bool → RingSetting → RingSetting
write_ringtone enabled r =
    let q = apply_ringtone_local enabled r in record q { posted = enabled ∷ q.posted }
