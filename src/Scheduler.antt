-- ===== src/Scheduler.antt =====
-- src/scheduler/: which peers may download from here.
pub mod Choke
