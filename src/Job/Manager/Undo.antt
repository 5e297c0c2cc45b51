-- ===== src/Job/Manager/Undo.antt =====
-- A stop_job after a start_job on the same job.
use nusa_launchd.Shared.{ℕ, String, ◌≡◌, refl, some, [], ◌∷◌, ◌++◌}
use text.Mathlib.TextPositions.{eq_refl}
use mathlib.Core.List.{append_assoc}
use nusa_launchd.Util.{ok}
use nusa_launchd.Dict.{lookup, insert, lookup-insert, insert-insert, insert_present}
use nusa_launchd.Job.Config.{JobConfig}
use nusa_launchd.Job.State.{System, running, job_started, job_stopped}
use nusa_launchd.Task.{Channels, taken, done}
use nusa_launchd.Event.{send}
use nusa_launchd.Process.Spawner.{Os, build_command}
use nusa_launchd.Process.Spawner.Laws.{monitor}
use nusa_launchd.Job.Manager.{new_instance, start_job, stop_job, may_start}
use nusa_launchd.Job.Manager.Start.{started, start_job-starts}
use nusa_launchd.Job.Manager.Stop.{stop_job-stops, stop_signals}

-- Starting a job that is as it was loaded, where the system spawns the process and the event channels
-- take both events, and then stopping it, with no other call in between, gives back the jobs as they
-- were. The process has been sent the signals of a stop, its start and its stop have been announced,
-- and its monitor has been handed to the runtime.
pub stop_job-start_job :
    (os os' : Os) (ch ch' : Channels) (now now' : ℕ) (label : String) (c : JobConfig) (s : System)
    (pid : ℕ)
    → lookup label s.jobs ≡ some (new_instance c)
    → os.spawn (build_command os c) ≡ ok (some pid)
    → ch.to_event (job_started label pid now') ≡ taken
    → ch'.to_event (job_stopped label running) ≡ taken
    → stop_job os' ch' label (start_job os ch now now' label s).1 ≡ (
      done tt,
      record s {
        signals = s.signals ++ stop_signals os' (some pid) (some (monitor c pid));
        events = s.events ++ job_started label pid now' ∷ job_stopped label running ∷ [];
        monitors = s.monitors ++ monitor c pid ∷ [];
      },
    )
unfolding new_instance may_start send
stop_job-start_job os os' ch ch' now now' label c s pid e o a b =
    let j = started (new_instance c) pid now' (monitor c pid) in
    let t : System = record s {
      jobs = insert label j s.jobs;
      events = s.events ++ job_started label pid now' ∷ [];
      monitors = s.monitors ++ monitor c pid ∷ [];
    } in
    rw
      (
        start_job-starts os ch now now' label s (new_instance c) pid e refl o,
        a,
        stop_job-stops os' ch' label t j (rw (lookup-insert, eq_refl label)),
        b,
        insert-insert,
        insert_present label (new_instance c) s.jobs e,
        append_assoc,
      )
      refl
