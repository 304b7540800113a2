-- ===== src/Gateway/Stream.antt =====
-- src/gateway/stream_hub.cpp and stream_hub.hpp: the hub of the event streams.
pub mod State
pub mod Closing
pub mod Push
pub mod Backfill
pub mod Between
pub mod Collect
pub mod Commit
pub mod Tick
pub mod Table
pub mod Steps
pub mod Refinement
pub mod Untouched
pub mod Delivery
pub mod Writes
pub mod Rounds
pub mod Kept
pub mod Resets
pub mod Polling
pub mod Late
