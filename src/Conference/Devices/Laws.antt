-- ===== src/Conference/Devices/Laws.antt =====
-- The settings for devices are read as they were written, each by itself.
use mattermost_plugin_openta.Base.{
  String, ◌≡◌, refl, Bool, true, false, Option, some, lookup-insert, Storage,
}
use mattermost_plugin_openta.Conference.Devices.{
  read_setting, write_setting, get_preferred_mic_id, set_preferred_mic_id, get_preferred_cam_id,
  set_preferred_cam_id, get_mute_on_join, set_mute_on_join,
}

-- The three settings as they are read.
pub record Settings : Type 0 where
  pub mic : Option String
  pub cam : Option String
  pub mute : Bool

abbrev pub settings : Storage → Settings
settings s = record {
  mic = get_preferred_mic_id s;
  cam = get_preferred_cam_id s;
  mute = get_mute_on_join s;
}

-- Writes of the settings.
pub data SettingWrite : Type 0 where
  mic_set cam_set : String → SettingWrite
  mute_set : Bool → SettingWrite

abbrev pub write : SettingWrite → Storage → Storage
write (mic_set id) s = set_preferred_mic_id id s
write (cam_set id) s = set_preferred_cam_id id s
write (mute_set b) s = set_mute_on_join b s

abbrev pub expected : SettingWrite → Settings → Settings
expected (mic_set id) t = record t { mic = some id }
expected (cam_set id) t = record t { cam = some id }
expected (mute_set b) t = record t { mute = b }

-- In a storage that can be read and written, a setting reads as it was last written, and a write of one
-- leaves the other two.
pub settings-write :
    (w : SettingWrite) (s : Storage)
    → s.readable ≡ true
    → s.writable ≡ true
    → settings (write w s) ≡ expected w (settings s)
unfolding read_setting write_setting get_preferred_mic_id set_preferred_mic_id get_preferred_cam_id
    set_preferred_cam_id get_mute_on_join set_mute_on_join
settings-write (mic_set id) s r h = simp (r, h, lookup-insert) refl
settings-write (cam_set id) s r h = simp (r, h, lookup-insert) refl
settings-write (mute_set true) s r h = simp (r, h, lookup-insert) refl
settings-write (mute_set false) s r h = simp (r, h, lookup-insert) refl
