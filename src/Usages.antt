-- ===== src/Usages.antt =====
-- Key usages: their names (pkg/api/util/usages.go), the sets that a certificate request asks for
-- (pkg/util/pki/csr.go) and their encoding as an extension (pkg/util/pki/keyusage.go).
pub mod Names
pub mod Encoding
pub mod Reading
pub mod Extension
