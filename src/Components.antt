-- ===== src/Components.antt =====
-- What components of webapp/src/components compute and do: the windows about calls that ring.
pub mod Ringing
pub mod Layouts
pub mod Leaving
pub mod Notices
