-- ===== src/Room/Battle.antt =====
-- src/room/battle_room.cpp: the state machine of one battle room.
pub mod State
pub mod Commands
pub mod Frames
pub mod Results
pub mod Calls
pub mod Bounds
pub mod Preserved
pub mod Verdict
pub mod Lifecycle
pub mod Timeline
pub mod Resume
pub mod Clock
pub mod Duel
pub mod Ending
