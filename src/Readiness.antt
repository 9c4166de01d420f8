-- ===== src/Readiness.antt =====
-- The controller that keeps the Ready condition (pkg/controller/certificates/readiness).
pub mod Process
pub mod Condition
pub mod Settling
