-- ===== src/Trigger.antt =====
-- The controller that triggers issuance (pkg/controller/certificates/trigger).
pub mod Backoff
pub mod Delays
pub mod Process
pub mod Issuance
