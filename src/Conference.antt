-- ===== src/Conference.antt =====
-- The parts of webapp/src/conference beside the controller: the user's custom status (status.ts), the
-- local microphone and camera (livekit/room.ts and livekit/tracks.ts), and the picker for a shared
-- screen (livekit/screen_picker.ts), the client (client.ts), and the devices and their settings (livekit/devices.ts).
pub mod Status
pub mod Media
pub mod Devices
pub mod Picker
pub mod Client
