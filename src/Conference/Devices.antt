-- ===== src/Conference/Devices.antt =====
-- The device cache and the settings for devices (webapp/src/conference/livekit/devices.ts).
pub mod Laws
use mattermost_plugin_openta.Base.{
  String, Bool, true, false, Option, none, some, List, [], ◌∷◌, ◌==◌, truthy, lookup, option_eq,
  Storage, try_set_item, if◌then◌else◌,
}

-- What `enumerateDevices` gives of a device.
pub record DeviceInfo : Type 0 where
  pub device_id : String
  pub label : String
  pub kind : String

pub data DeviceKind : Type 0 where
  audio_input video_input : DeviceKind

pub record MediaDevice : Type 0 where
  pub device_id : String
  pub label : String
  pub kind : DeviceKind

pub record DeviceCache : Type 0 where
  -- `cachedAudio` and `cachedVideo`
  pub audio : List MediaDevice
  pub video : List MediaDevice
  -- `listenerInstalled`
  pub listening : Bool

abbrev pub kind_text : DeviceKind → String
kind_text audio_input = "audioinput"
kind_text video_input = "videoinput"

abbrev label_or_default : String → String
label_or_default label = if truthy label then label else "Unbenannt"

-- The devices of a kind, for the user to choose from.
abbrev pub devices_of : DeviceKind → List DeviceInfo → List MediaDevice
devices_of kind [] = []
devices_of kind (d ∷ ds) =
    let rest = devices_of kind ds in
    if d.kind == kind_text kind
    then record { device_id = d.device_id; label = label_or_default d.label; kind = kind } ∷ rest
    else rest

-- The end of `refresh`; `none` where the devices could not be listed.
unfoldable pub refreshed : Option (List DeviceInfo) → DeviceCache → DeviceCache
refreshed none c = c
refreshed (some ds) c = record c {
  audio = devices_of audio_input ds;
  video = devices_of video_input ds;
}

-- `initDeviceCache` up to its refresh, and whether it starts one.
unfoldable pub init_device_cache : DeviceCache → DeviceCache × Bool
init_device_cache c = if c.listening then (c, false) else (record c { listening = true }, true)

unfoldable pub dispose_device_cache : DeviceCache → DeviceCache
dispose_device_cache c = record { audio = []; video = []; listening = false }

pub data Setting : Type 0 where
  mic_device cam_device mute_on_join : Setting

-- `MIC_DEVICE_KEY`, `CAM_DEVICE_KEY` and `MUTE_ON_JOIN_KEY`
abbrev pub setting_key : Setting → String
setting_key mic_device = "opentalk:preferred-mic-id"
setting_key cam_device = "opentalk:preferred-cam-id"
setting_key mute_on_join = "opentalk:mute-on-join"

unfoldable pub read_setting : Setting → Storage → Option String
read_setting k s = if s.readable then lookup (setting_key k) s.entries else none

unfoldable pub write_setting : Setting → String → Storage → Storage
write_setting k value s = try_set_item (setting_key k) value s

unfoldable pub get_preferred_mic_id : Storage → Option String
get_preferred_mic_id s = read_setting mic_device s

unfoldable pub set_preferred_mic_id : String → Storage → Storage
set_preferred_mic_id id s = write_setting mic_device id s

unfoldable pub get_preferred_cam_id : Storage → Option String
get_preferred_cam_id s = read_setting cam_device s

unfoldable pub set_preferred_cam_id : String → Storage → Storage
set_preferred_cam_id id s = write_setting cam_device id s

unfoldable pub get_mute_on_join : Storage → Bool
get_mute_on_join s = option_eq (read_setting mute_on_join s) (some "true")

unfoldable pub set_mute_on_join : Bool → Storage → Storage
set_mute_on_join value s = write_setting mute_on_join (if value then "true" else "false") s
