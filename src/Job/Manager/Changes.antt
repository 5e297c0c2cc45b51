-- ===== src/Job/Manager/Changes.antt =====
-- The state machine of one job, and what a block of the manager may do to the map of jobs.
use nusa_launchd.Shared.{ℕ, ◌+◌, String, ◌≡◌, ◌⊎◌, ◌≤◌, ◌<◌, true, Option, none, some, List}
use nusa_launchd.Shared.Int.{ℤ}
use nusa_launchd.Dict.{lookup, insert}
use nusa_launchd.Time.{u32}
use nusa_launchd.Job.Config.{JobConfig}
use nusa_launchd.Job.State.{
  stopped, starting, running, stopping, failed, backoff, JobInstance, JoinHandle,
}
use nusa_launchd.Job.Manager.{may_start, new_instance, awaits_restart}

abbrev pub Jobs : Type 0
Jobs = List (String × JobInstance)

-- A job that goes from `i` to `j`.
pub data Change (i j : JobInstance) : Type 0 where
  -- start_job before the spawn
  start_begins :
      (now : ℕ)
      → may_start i.state i.backoff_until now ≡ true
      → j ≡ record i { state = starting; backoff_until = none }
      → Change i j
  -- start_job after a spawn that succeeded
  start_succeeds :
      (pid now : ℕ) (handle : JoinHandle)
      → j ≡ record i {
        state = running;
        pid = some pid;
        start_time = some now;
        process_handle = some handle;
        restart_count = 0;
      }
      → Change i j
  -- start_job after a spawn that failed
  start_fails : (reason : String) → j ≡ record i { state = failed reason } → Change i j
  -- stop_job before and after it has ended the process
  stop_begins : j ≡ record i { state = stopping; process_handle = none } → Change i j
  stop_ends :
      j ≡ record i { state = stopped; pid = none; start_time = none; process_handle = none }
      → Change i j
  -- handle_process_exit with no restart wanted
  exit_stops :
      (exit_code : ℤ) (signal : Option ℤ)
      → j ≡ record i {
        state = stopped;
        pid = none;
        process_handle = none;
        last_exit_code = some exit_code;
        last_exit_signal = signal;
      }
      → Change i j
  -- handle_process_exit with the limit on restarts reached
  exit_gives_up :
      (exit_code : ℤ) (signal : Option ℤ) (reason : String)
      → 0 < i.config.supervision.max_restarts
      → i.config.supervision.max_restarts ≤ u32 (i.restart_count + 1)
      → j ≡ record i {
        state = failed reason;
        pid = none;
        process_handle = none;
        last_exit_code = some exit_code;
        last_exit_signal = signal;
        restart_count = u32 (i.restart_count + 1);
      }
      → Change i j
  -- handle_process_exit with a restart scheduled
  exit_backs_off :
      (exit_code : ℤ) (signal : Option ℤ) (until : ℕ)
      → (i.config.supervision.max_restarts ≡ 0)
        ⊎ (u32 (i.restart_count + 1) < i.config.supervision.max_restarts)
      → j ≡ record i {
        state = backoff;
        pid = none;
        process_handle = none;
        last_exit_code = some exit_code;
        last_exit_signal = signal;
        restart_count = u32 (i.restart_count + 1);
        backoff_until = some until;
      }
      → Change i j
  -- the restart task after the delay
  delay_ends : awaits_restart i.state ≡ true → j ≡ record i { state = stopped } → Change i j

-- What a block that is about `label` does to the map.
pub data Effect (label : String) (jobs jobs' : Jobs) : Type 0 where
  keeps : jobs' ≡ jobs → Effect label jobs jobs'
  changes :
      (i j : JobInstance)
      → lookup label jobs ≡ some i
      → Change i j
      → jobs' ≡ insert label j jobs
      → Effect label jobs jobs'
  creates :
      (config : JobConfig)
      → config.label ≡ label
      → lookup label jobs ≡ none
      → jobs' ≡ insert label (new_instance config) jobs
      → Effect label jobs jobs'
