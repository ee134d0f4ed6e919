-- ===== src/Store.antt =====
-- webapp/src/store: the Redux slices, one module each.
pub mod Action
pub mod Participants
pub mod Session
pub mod Tracks
pub mod Calls
pub mod Notice
pub mod Root
pub mod Selectors
