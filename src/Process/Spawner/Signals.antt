-- ===== src/Process/Spawner/Signals.antt =====
-- What kill_process and monitor_process do with each answer.
use nusa_launchd.Shared.{
  ℕ, String, Bool, true, false, Option, List, [], ◌∷◌, ◌++◌, ◌≡◌, refl, if◌then◌else◌, Bool-cases,
  inl, inr,
}
use mathlib.Core.List.{append_assoc}
use nusa_launchd.Shared.Int.{ℤ}
use nusa_launchd.Text.{concat}
use nusa_launchd.Util.{process, from_string, Result, ok, err}
use nusa_launchd.Job.State.{
  System, JoinHandle, Signal, sigterm, sigkill, JobEvent, job_exited, job_ready_for_restart,
}
use nusa_launchd.Task.{Channels, taken, Outcome, done, fails}
use nusa_launchd.Event.{send}
use nusa_launchd.Process.Spawner.{
  Os, exits, exit_code_or, restart_needed, monitor_process, kill_process,
}

module _ (os : Os) (show : Result String Unit → String) (pid : ℕ) (s : System) where
  abbrev pub signalled : List (ℕ × Signal) → System
  signalled sent = record s { signals = s.signals ++ sent }

  -- How a call of kill_process can end.
  pub data KillAnswer (force : Bool) (r : Outcome Unit × System) : Type 0 where
    kills :
        force ≡ true
        → os.kill pid sigkill ≡ ok tt
        → r ≡ (done tt, signalled ((pid, sigkill) ∷ []))
        → KillAnswer force r
    kill_refused :
        (m : String)
        → force ≡ true
        → os.kill pid sigkill ≡ err m
        → r ≡ (
          fails (process (from_string (concat ("Failed to send SIGKILL: " ∷ m ∷ [])))),
          signalled ((pid, sigkill) ∷ []),
        )
        → KillAnswer force r
    terminates :
        force ≡ false
        → os.kill pid sigterm ≡ ok tt
        → r ≡ (done tt, signalled ((pid, sigterm) ∷ []))
        → KillAnswer force r
    escalates :
        (m : String)
        → force ≡ false
        → os.kill pid sigterm ≡ err m
        → r ≡ (
          fails (
              process (
                from_string
                  (concat ("Failed to kill process: " ∷ show (os.kill pid sigkill) ∷ [])))),
          signalled ((pid, sigterm) ∷ (pid, sigkill) ∷ []),
        )
        → KillAnswer force r

  -- Every call of kill_process: by force it sends SIGKILL alone and returns its error if it is
  -- refused; else it sends SIGTERM, and where that is refused it sends SIGKILL as well and returns an
  -- error even if the SIGKILL is accepted.
  pub kill_process_cases : (force : Bool) → KillAnswer force (kill_process os show pid force s)
  unfolding kill_process
  kill_process_cases true = at (os.kill pid sigkill) refl
    where
      at :
          (a : Result String Unit)
          → os.kill pid sigkill ≡ a
          → KillAnswer true (kill_process os show pid true s)
      at (ok u) e = kills refl e (rw e)
      at (err m) e = kill_refused m refl e (rw e)
  kill_process_cases false = at (os.kill pid sigterm) refl
    where
      at :
          (a : Result String Unit)
          → os.kill pid sigterm ≡ a
          → KillAnswer false (kill_process os show pid false s)
      at (ok u) e = terminates refl e (rw e)
      at (err m) e = escalates m refl e (rw (e, append_assoc))

-- The events of a monitor whose process has exited.
abbrev pub exit_events : JoinHandle → Option ℤ → Option ℤ → List JobEvent
exit_events h code signal =
    job_exited h.label (exit_code_or code) signal 0
    ∷ (if restart_needed h.config (exit_code_or code) signal
        then job_ready_for_restart h.label ∷ []
        else [])

-- Where the channel takes events, the monitor of a process that has exited sends JobExited, with the
-- exit code or -1 if there is none and with no restarts counted, and then JobReadyForRestart exactly
-- if the configuration wants a restart; it changes nothing else, the job's state included.
pub monitor_process_lem :
    (ch : Channels) (h : JoinHandle) (code signal : Option ℤ) (s : System)
    → ((e : JobEvent) → ch.to_event e ≡ taken)
    → monitor_process ch h (exits code signal) s
      ≡ (done tt, record s { events = s.events ++ exit_events h code signal })
unfolding monitor_process send
monitor_process_lem ch h code signal s t =
    elim (Bool-cases (restart_needed h.config (exit_code_or code) signal)) [
      | inl e ↦ rw (t, e) (rw (t, append_assoc))
      | inr e ↦ rw (t, e)
    ]
