-- ===== src/Challenges.antt =====
-- The scheduling of ACME challenges (pkg/controller/acmechallenges/scheduler/scheduler.go and
-- runScheduler of pkg/controller/acmechallenges/controller.go).
pub mod Scheduler
pub mod Keys
pub mod Distinct
pub mod Dedupe
pub mod Selection
pub mod Candidates
pub mod Schedule
pub mod Runs
