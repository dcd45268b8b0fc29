-- ===== src/Cron.antt =====
-- services/cron: the maintenance jobs and when they run.
pub mod Timing
pub mod Ticks
pub mod Cleanup
pub mod Remains
pub mod Jobs
mod Examples
