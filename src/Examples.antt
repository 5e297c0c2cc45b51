-- ===== src/Examples.antt =====
-- The data and the runs that the theorems are tried on.
pub mod Data
mod Config
mod Supervision
mod Queue
mod Locks
mod Backlog
mod Program
mod Lines
mod Process
