-- ===== src/Process/Monitor.antt =====
-- src/process/monitor.rs: ProcessMonitor. No part of the program calls it.
pub mod Timeout
use nusa_launchd.Shared.{ℕ, String, Bool, true, false, Option, none, some, [], ◌∷◌}
use nusa_launchd.Text.{concat}
use nusa_launchd.Util.{Result, ok, err}
use nusa_launchd.Job.State.{job_exited, job_failed, failed, sigkill}
use nusa_launchd.Task.{Task, ◌>>=◌, pure, ignore, Channels}
use nusa_launchd.Event.{send}
use nusa_launchd.Process.Spawner.{Os, Waited, exits, wait_fails, exit_code_or, kill}

-- How the wait under a timeout ends: the wait ends in time, or the time passes first. The child then
-- still has its id, unless it was already waited for.
pub data Timed : Type 0 where
  in_time : Waited → Timed
  elapsed : Option ℕ → Timed

-- The kill after the timeout; its error is dropped.
kill_child : Os → Option ℕ → Task Unit
unfolding kill
kill_child os none = pure tt
kill_child os (some pid) = do r ← kill os pid sigkill; pure tt

unfoldable pub monitor_with_timeout : Os → Channels → String → Timed → Task Unit
unfolding send kill_child
monitor_with_timeout os ch label (in_time (exits code signal)) =
    ignore (send ch (job_exited label (exit_code_or code) signal 0))
monitor_with_timeout os ch label (in_time (wait_fails e)) =
    ignore (send ch (job_failed label (failed (concat ("Wait error: " ∷ e ∷ [])))))
monitor_with_timeout os ch label (elapsed id) = kill_child os id

-- `kill` with no signal, which only asks whether one could be sent, is the system's. The process id
-- is below 2 ^ 31.
unfoldable pub is_process_running : (ℕ → Result String Unit) → ℕ → Bool
is_process_running probe pid = elim (probe pid) [ ok u ↦ true | err e ↦ false ]
