-- ===== src/Renewal.antt =====
-- The renewal time of a certificate (pkg/util/pki/renewaltime.go).
pub mod Time
pub mod Desired
pub mod Windows
