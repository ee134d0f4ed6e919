-- ===== src/Plugin.antt =====
-- The plugin as the host application sees it: its websocket handlers (webapp/src/plugin.ts), the
-- setting for rings (webapp/src/user_settings.ts), the calls of the plugin's server
-- (webapp/src/client/rest.ts), and the button that starts a meeting
-- (webapp/src/components/channel_header_button/action.ts).
pub mod Ringtone
pub mod Entry
pub mod Rest
pub mod Start
