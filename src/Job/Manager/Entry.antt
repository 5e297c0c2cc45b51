-- ===== src/Job/Manager/Entry.antt =====
-- src/job/manager.rs: how the handlers read and write the entry of a job.
use nusa_launchd.Shared.{String, Option, none, some}
use nusa_launchd.Dict.{lookup, insert}
use nusa_launchd.Util.{job_not_found}
use nusa_launchd.Job.State.{JobInstance}
use nusa_launchd.Task.{Task, pure, fail, panic, modify, done}

-- jobs.get_mut, and a write through what it returns.
abbrev pub get_job : String → Task (Option JobInstance)
get_job label s = (done (lookup label s.jobs), s)

abbrev pub set_job : String → JobInstance → Task Unit
set_job label i = modify (λ s. record s { jobs = insert label i s.jobs })

-- `.ok_or_else(|| JobNotFound)?`
abbrev pub found : String → Option JobInstance → Task JobInstance
found label none = fail (job_not_found label)
found label (some i) = pure i

-- `.unwrap()`
abbrev pub unwrapped : Option JobInstance → Task JobInstance
unwrapped none = panic
unwrapped (some i) = pure i
