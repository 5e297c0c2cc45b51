-- ===== src/Process/Monitor/Timeout.antt =====
-- What monitor_with_timeout sends and kills.
use mathlib.Core.List.{append-nil}
use nusa_launchd.Shared.{ℕ, String, none, some, List, [], ◌∷◌, ◌++◌, ◌≡◌}
use nusa_launchd.Text.{concat}
use nusa_launchd.Job.State.{System, Signal, sigkill, JobEvent, job_exited, job_failed, failed}
use nusa_launchd.Task.{Channels, taken, done}
use nusa_launchd.Process.Spawner.{Os, exits, wait_fails, exit_code_or}
use nusa_launchd.Process.Monitor.{Timed, in_time, elapsed, monitor_with_timeout}

-- The events and the signals of each end of the wait.
abbrev pub events_of : String → Timed → List JobEvent
events_of label (in_time (exits code signal)) = job_exited label (exit_code_or code) signal 0 ∷ []
events_of label (in_time (wait_fails e)) =
    job_failed label (failed (concat ("Wait error: " ∷ e ∷ []))) ∷ []
events_of label (elapsed id) = []

abbrev pub signals_of : Timed → List (ℕ × Signal)
signals_of (in_time w) = []
signals_of (elapsed none) = []
signals_of (elapsed (some pid)) = (pid, sigkill) ∷ []

-- Where the channel takes events, monitor_with_timeout sends JobExited for a process that ends in
-- time and JobFailed for a wait that fails, and no signal; when the time passes it sends SIGKILL to
-- the process if that has an id, and no event.
pub monitor_with_timeout_lem :
    (os : Os) (ch : Channels) (label : String) (w : Timed) (s : System)
    → ((e : JobEvent) → ch.to_event e ≡ taken)
    → monitor_with_timeout os ch label w s ≡ (
      done tt,
      record s { events = s.events ++ events_of label w; signals = s.signals ++ signals_of w },
    )
unfolding monitor_with_timeout
monitor_with_timeout_lem os ch label (in_time (exits code signal)) s t = rw (t, append-nil)
monitor_with_timeout_lem os ch label (in_time (wait_fails e)) s t = rw (t, append-nil)
monitor_with_timeout_lem os ch label (elapsed none) s t =
    rw (append-nil s.events, append-nil s.signals)
monitor_with_timeout_lem os ch label (elapsed (some pid)) s t = rw append-nil
