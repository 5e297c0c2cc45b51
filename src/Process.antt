-- ===== src/Process.antt =====
-- src/process: the spawner and the monitor with a timeout.
pub mod Spawner
pub mod Monitor
