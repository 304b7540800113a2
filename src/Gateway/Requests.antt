-- ===== src/Gateway/Requests.antt =====
-- src/gateway/gateway_service.cpp and error.cpp: what the request handlers read and answer.
pub mod LastEventId
pub mod Failures
pub mod Sessions
pub mod Redis
pub mod Handlers
