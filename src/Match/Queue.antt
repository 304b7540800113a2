-- ===== src/Match/Queue.antt =====
-- The match queue of src/match/match_queue.{hpp,cpp}.
pub mod State
pub mod Requests
pub mod Pairing
pub mod Saving
pub mod Restart
pub mod Rounds
pub mod Agree
pub mod Kept
pub mod Groups
pub mod Schedule
pub mod Restored
pub mod System
pub mod Order
pub mod Guarantees
