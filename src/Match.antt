-- ===== src/Match.antt =====
-- The match service: src/match.
pub mod Queue
pub mod Store
