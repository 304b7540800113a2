-- ===== src/Gateway.antt =====
-- The gateway: src/gateway.
pub mod Client
pub mod Events
pub mod Stream
pub mod Requests
