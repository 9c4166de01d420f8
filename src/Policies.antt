-- ===== src/Policies.antt =====
-- The policy checks on a Certificate, its Secret and its current CertificateRequest
-- (internal/controller/certificates/policies).
pub mod Input
pub mod Checks
pub mod Keystores
pub mod Chains
pub mod Verdicts
pub mod Reissue
