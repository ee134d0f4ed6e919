-- ===== src/Controller.antt =====
-- webapp/src/conference/controller.ts: the one active conference of the browser tab.
pub mod State
pub mod Join
pub mod Events
pub mod Local
pub mod Handlers
pub mod Apart
pub mod Calls
pub mod Teardown
pub mod Left
pub mod Leaving
pub mod Rejoining
