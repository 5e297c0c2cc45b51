-- ===== src/Job/Manager/Loads.antt =====
-- src/job/manager.rs: JobManager::load_job.
use nusa_launchd.Shared.{Option, none, some, [], ◌∷◌, ◌++◌, if◌then◌else◌}
use nusa_launchd.Util.{job_exists}
use nusa_launchd.Job.Config.{JobConfig}
use nusa_launchd.Job.State.{stopped, JobInstance, job_loaded}
use nusa_launchd.Task.{Task, ◌>>=◌, ◌>>◌, pure, fail, modify, Channels}
use nusa_launchd.Event.{send}
use nusa_launchd.Job.Manager.Entry.{get_job, set_job}

unfoldable pub new_instance : JobConfig → JobInstance
new_instance config = record {
  config = config;
  state = stopped;
  pid = none;
  start_time = none;
  restart_count = 0;
  last_exit_code = none;
  last_exit_signal = none;
  backoff_until = none;
  process_handle = none;
}

-- The instance is in the map before the event is sent, and stays there if the send fails.
unfoldable pub load_new : Channels → JobConfig → Option JobInstance → Task Unit
unfolding new_instance send
load_new ch config (some i) = fail (job_exists config.label)
load_new ch config none = do
  set_job config.label (new_instance config)
  send ch (job_loaded config.label)
  if config.supervision.keep_alive
      then modify (λ s. record s { start_tasks = s.start_tasks ++ config.label ∷ [] })
      else pure tt

unfoldable pub load_job : Channels → JobConfig → Task Unit
unfolding load_new
load_job ch config = do present ← get_job config.label; load_new ch config present
