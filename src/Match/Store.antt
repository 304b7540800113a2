-- ===== src/Match/Store.antt =====
-- The stored form of the match queue: src/match/match_queue_store.cpp.
pub mod Codec
pub mod RoundTrip
