-- ===== src/Signaling.antt =====
-- webapp/src/conference/signaling: the protocol of the OpenTalk roomserver.
pub mod Value
pub mod Case
pub mod Wire
pub mod RoomState
pub mod Messages
pub mod Room
pub mod Socket
