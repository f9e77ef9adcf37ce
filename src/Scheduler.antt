-- ===== src/Scheduler.antt =====
-- internal/scheduler: when each probe runs, and the guard that may decline to run it.
pub mod Repository
pub mod Guard
pub mod OnStore
pub mod Sweep
mod Effects
pub mod Ceiling
mod Upkeep
pub mod Retention
pub mod Backoff
pub mod Lockout
pub mod Pauses
pub mod Restart
pub mod Days
pub mod Running
