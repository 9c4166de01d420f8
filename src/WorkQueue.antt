-- ===== src/WorkQueue.antt =====
-- The queue of delayed work items (pkg/scheduler/scheduler.go).
pub mod Steps
pub mod Tracking
pub mod Cancellation
