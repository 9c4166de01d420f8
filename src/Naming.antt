-- ===== src/Naming.antt =====
-- The names that cert-manager gives to objects (pkg/api/util/names.go).
pub mod Shorten
pub mod Length
