-- ===== src/Issuing.antt =====
-- The controller that completes an issuance (pkg/controller/certificates/issuing).
pub mod Listing
pub mod Process
pub mod Requests
pub mod Storing
pub mod Counting
