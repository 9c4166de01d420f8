-- ===== src/Revisions.antt =====
-- The controller that deletes old CertificateRequests (pkg/controller/certificates/revisionmanager).
pub mod Collector
pub mod Retention
