-- ===== src/Examples.antt =====
-- The theorems at concrete inputs, and tests of the model.
pub mod Battle
pub mod Manager
pub mod Restart
pub mod Queue
pub mod Store
pub mod Stream
pub mod Requests
pub mod Late
