-- ===== src/RequestManager.antt =====
-- The controller that creates CertificateRequests (pkg/controller/certificates/requestmanager).
pub mod Sweep
pub mod Process
pub mod Sweeping
pub mod Annotations
pub mod Guards
pub mod Numbers
pub mod Decisions
pub mod Wanted
pub mod Creation
pub mod Progress
pub mod Liveness
pub mod Copying
