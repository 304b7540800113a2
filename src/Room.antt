-- ===== src/Room.antt =====
-- The room service of src/room: battle rooms, their manager, and their persistent snapshots.
pub mod Types
pub mod Battle
pub mod Manager
pub mod Snapshots
pub mod Recovery
