-- ===== src/Job/Manager/Queries.antt =====
-- src/job/manager.rs: get_job_status and list_jobs.
use nusa_launchd.Shared.{ℕ, ◌-◌, String, Option, none, some, List, map}
use nusa_launchd.Dict.{lookup}
use nusa_launchd.Job.State.{JobInstance, JobStatus, System}

-- `t.elapsed()`; the difference of instants stops at zero.
unfoldable pub status : ℕ → String → JobInstance → JobStatus
status now label i = record {
  label = label;
  state = i.state;
  pid = i.pid;
  restart_count = i.restart_count;
  uptime = elim i.start_time [ none ↦ none | some t ↦ some (now - t) ];
  exit_code = i.last_exit_code;
  exit_signal = i.last_exit_signal;
  config = i.config;
}

unfoldable pub get_job_status : ℕ → String → System → Option JobStatus
unfolding status
get_job_status now label s = elim (lookup label s.jobs) [
  | none ↦ none
  | some i ↦ some (status now label i)
]

unfoldable pub list_jobs : ℕ → System → List JobStatus
unfolding status
list_jobs now s = map (λ (p : String × JobInstance). status now p.0 p.1) s.jobs
