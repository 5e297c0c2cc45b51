-- ===== src/Job.antt =====
-- src/job: the configuration of a job, its validation, the restart supervisor and the manager.
pub mod Config
pub mod State
pub mod Validator
pub mod Supervisor
pub mod Manager
