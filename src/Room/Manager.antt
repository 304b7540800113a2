-- ===== src/Room/Manager.antt =====
-- src/room/room_manager.cpp: the table of rooms and the clock that drives them.
pub mod State
pub mod Ticking
pub mod Queries
pub mod Index
pub mod Steps
pub mod Invariant
pub mod Moved
pub mod Safety
pub mod Guarantees
pub mod Counts
pub mod Restart
pub mod Restored
