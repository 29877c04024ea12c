-- ===== src/Scheduler.antt =====
-- The IP scheduler: internal/scheduler/ip_scheduler.go over the schedule store and the task queue.
pub mod Settings
pub mod Pass
pub mod Requests
pub mod Startup
pub mod Calm
pub mod Refresh
pub mod Loops
pub mod Waits
pub mod Archiving
pub mod Jobs
pub mod Once
pub mod Boot
pub mod Due
pub mod Faults
pub mod Queueing
pub mod Pushed
mod Examples
