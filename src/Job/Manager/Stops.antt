-- ===== src/Job/Manager/Stops.antt =====
-- src/job/manager.rs: JobManager::stop_job, block by block.
use nusa_launchd.Shared.{ℕ, String, Option, none, some, if◌then◌else◌}
use nusa_launchd.Job.State.{JobState, stopped, stopping, JoinHandle, job_stopped, sigterm, sigkill}
use nusa_launchd.Task.{Task, ◌>>=◌, ◌>>◌, pure, Channels}
use nusa_launchd.Event.{send}
use nusa_launchd.Process.Spawner.{Os, kill}
use nusa_launchd.Job.Manager.Entry.{get_job, set_job, found, unwrapped}

-- What stop_job takes along from its first block.
pub record Stopping : Type 0 where
  pub previous : JobState
  pub pid : Option ℕ
  pub handle : Option JoinHandle

unfoldable pub begin_stop : String → Task Stopping
begin_stop label = do
  present ← get_job label
  i ← found label present
  set_job label (record i { state = stopping; process_handle = none })
  pure (record { previous = i.state; pid = i.pid; handle = i.process_handle })

-- The select! on the handle: the process ends, or ten seconds pass.
unfoldable pub await_end : Os → ℕ → Option JoinHandle → Task Unit
unfolding kill
await_end os pid none = pure tt
await_end os pid (some handle) =
    if os.ends_in_time handle then pure tt else do r ← kill os pid sigkill; pure tt

-- Between the blocks of stop_job. A SIGTERM that cannot be sent is only logged.
unfoldable pub end_process : Os → Option ℕ → Option JoinHandle → Task Unit
unfolding kill await_end
end_process os none handle = pure tt
end_process os (some pid) handle = do r ← kill os pid sigterm; await_end os pid handle

unfoldable pub finish_stop : Channels → String → JobState → Task Unit
unfolding send
finish_stop ch label previous = do
  present ← get_job label
  i ← unwrapped present
  set_job label (record i { state = stopped; pid = none; start_time = none; process_handle = none })
  send ch (job_stopped label previous)

unfoldable pub stop_job : Os → Channels → String → Task Unit
unfolding begin_stop end_process finish_stop
stop_job os ch label = do
  stop ← begin_stop label
  end_process os stop.pid stop.handle
  finish_stop ch label stop.previous
