-- ===== src/KeyManager.antt =====
-- The controller that keeps the next private key (pkg/controller/certificates/keymanager).
pub mod Process
pub mod Holding
pub mod Cluster
pub mod Deletions
pub mod Rounds
pub mod Convergence
