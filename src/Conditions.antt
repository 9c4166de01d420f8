-- ===== src/Conditions.antt =====
-- The status conditions of issuers, certificates and certificate requests
-- (pkg/api/util/conditions.go).
pub mod Entry
pub mod Update
pub mod Distinct
pub mod Operations
pub mod Certificates
pub mod Requests
