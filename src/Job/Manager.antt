-- ===== src/Job/Manager.antt =====
-- src/job/manager.rs: JobManager and the restart task. Each block under the write lock is a task of
-- its own (`begin_start`, `commit_start`, `begin_stop`, `finish_stop`, …), so that blocks of several
-- calls can be interleaved; the methods run their blocks one after the other.
mod Entry
mod Loads
mod Starts
mod Stops
mod Exits
mod Queries
pub mod Blocks
pub mod Changes
pub mod Leaves
pub mod Refines
pub mod Invariant
pub mod Persistence
pub mod Start
pub mod Stop
pub mod Exit
pub mod Restarts
pub mod Status
pub mod Load
pub mod Booted
pub mod Boot
pub mod Backlog
pub mod Backoff
pub mod Delay
pub mod Cycle
pub mod Undo
pub mod Others
mod Examples
mod Calls
unfoldable pub use Entry.*
unfoldable pub use Loads.*
unfoldable pub use Starts.*
unfoldable pub use Stops.*
unfoldable pub use Exits.*
unfoldable pub use Queries.*
use nusa_launchd.Shared.{ℕ, String}
use nusa_launchd.Task.{Task, ◌>>=◌, ◌>>◌, Channels}
use nusa_launchd.Process.Spawner.{Os}

-- The pause of 100 milliseconds lies between the two calls, which have their own answers.
unfoldable pub restart_job : Os → Os → Channels → Channels → ℕ → ℕ → String → Task Unit
unfolding stop_job start_job
restart_job os os' ch ch' now now' label = do stop_job os ch label; start_job os' ch' now now' label
