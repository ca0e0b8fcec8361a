-- ===== src/Scheduler.antt =====
-- The scheduler, src/scheduler.
pub mod Deque
