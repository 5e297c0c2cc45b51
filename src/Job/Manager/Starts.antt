-- ===== src/Job/Manager/Starts.antt =====
-- src/job/manager.rs: JobManager::start_job, block by block.
use nusa_launchd.Shared.{
  ℕ, String, Bool, true, false, not, Option, none, some, [], ◌∷◌, leb, if◌then◌else◌,
}
use nusa_launchd.Text.{concat}
use nusa_launchd.Util.{NusaError, display}
use nusa_launchd.Job.Config.{JobConfig}
use nusa_launchd.Job.State.{
  JobState, starting, running, failed, backoff, JoinHandle, job_started, System,
}
use nusa_launchd.Task.{Task, ◌>>=◌, ◌>>◌, pure, fail, Channels, Outcome, done, fails, waits, panics}
use nusa_launchd.Event.{send}
use nusa_launchd.Process.Spawner.{Os, spawn}
use nusa_launchd.Job.Manager.Entry.{get_job, set_job, found, unwrapped}

-- The match of start_job on the state: does the start go on?
unfoldable pub may_start : JobState → Option ℕ → ℕ → Bool
may_start running until now = false
may_start starting until now = false
may_start backoff none now = true
may_start backoff (some until) now = leb until now
may_start _ until now = true

-- The first block of start_job: the configuration to spawn, or `none` if there is nothing to do.
unfoldable pub begin_start : ℕ → String → Task (Option JobConfig)
unfolding may_start
begin_start now label = do
  present ← get_job label
  i ← found label present
  if not (may_start i.state i.backoff_until now) then pure none else do
    set_job label (record i { state = starting; backoff_until = none })
    pure (some i.config)

-- The second block of start_job, after a spawn that succeeded.
unfoldable pub commit_start : Channels → ℕ → String → ℕ → JoinHandle → Task Unit
unfolding send
commit_start ch now label pid handle = do
  present ← get_job label
  i ← unwrapped present
  set_job label (record i {
    state = running;
    pid = some pid;
    start_time = some now;
    process_handle = some handle;
    restart_count = 0;
  })
  send ch (job_started label pid now)

-- The second block of start_job, after a spawn that failed.
unfoldable pub abort_start : String → NusaError → Task Unit
unfolding display
abort_start label e = do
  present ← get_job label
  i ← unwrapped present
  set_job label (record i { state = failed (concat ("Failed to start: " ∷ display e ∷ [])) })
  fail e

-- The match on the result of the spawn.
abbrev spawned_then :
    Outcome (ℕ × JoinHandle) × System
    → (ℕ → JoinHandle → Task Unit)
    → (NusaError → Task Unit)
    → Outcome Unit × System
spawned_then (done (pid, handle), s) k h = k pid handle s
spawned_then (fails e, s) k h = h e s
spawned_then (waits, s) k h = (waits, s)
spawned_then (panics, s) k h = (panics, s)

unfoldable pub start_begun : Os → Channels → ℕ → String → Option JobConfig → Task Unit
unfolding spawn commit_start abort_start
start_begun os ch now label none s = (done tt, s)
start_begun os ch now label (some config) s =
    spawned_then (spawn os config s) (commit_start ch now label) (abort_start label)

-- `now` is read at the check of the backoff, `now'` when the process has started.
unfoldable pub start_job : Os → Channels → ℕ → ℕ → String → Task Unit
unfolding begin_start start_begun
start_job os ch now now' label = do
  config ← begin_start now label
  start_begun os ch now' label config
