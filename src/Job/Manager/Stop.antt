-- ===== src/Job/Manager/Stop.antt =====
-- What a whole call of stop_job does when no other call runs in between.
use text.Mathlib.TextPositions.{eq_refl}
use nusa_launchd.Shared.{
  ℕ, String, ◌≡◌, refl, Option, none, some, List, [], ◌∷◌, ◌++◌, Bool-cases, Option-cases, inl, inr,
  if◌then◌else◌,
}
use nusa_launchd.Dict.{lookup, insert, lookup-insert, insert-insert}
use nusa_launchd.Job.State.{
  System, stopped, JobInstance, JoinHandle, Signal, sigterm, sigkill, job_stopped,
}
use nusa_launchd.Task.{Channels, Outcome, done, fails}
use nusa_launchd.Event.{send}
use mathlib.Core.List.{append-nil, append_assoc}
use nusa_launchd.Job.Manager.{stop_job, end_process}
use nusa_launchd.Process.Spawner.{Os}
use nusa_launchd.Util.{job_not_found}

-- The instance of a job that stop_job has stopped.
abbrev pub ended : JobInstance → JobInstance
ended i = record i { state = stopped; pid = none; start_time = none; process_handle = none }

-- The signals that stop_job sends to the process of a job.
abbrev pub stop_signals : Os → Option ℕ → Option JoinHandle → List (ℕ × Signal)
stop_signals os none h = []
stop_signals os (some pid) none = (pid, sigterm) ∷ []
stop_signals os (some pid) (some h) =
    (pid, sigterm) ∷ (if os.ends_in_time h then [] else (pid, sigkill) ∷ [])

module _ (os : Os) (ch : Channels) (label : String) (s : System) where
  end_process-signals :
      (pid : Option ℕ) (h : Option JoinHandle) (t : System)
      → end_process os pid h t
        ≡ (done tt, record t { signals = t.signals ++ stop_signals os pid h })
  unfolding end_process
  end_process-signals none h t = rw append-nil
  end_process-signals (some pid) none t = refl
  end_process-signals (some pid) (some h) t = elim (Bool-cases (os.ends_in_time h)) [
    | inl e ↦ rw e
    | inr e ↦ rw (e, append_assoc)
  ]

  stop_job-missing :
      lookup label s.jobs ≡ none → stop_job os ch label s ≡ (fails (job_not_found label), s)
  unfolding stop_job
  stop_job-missing e = rw e

  pub stop_job-stops :
      (i : JobInstance)
      → lookup label s.jobs ≡ some i
      → stop_job os ch label s
        ≡ send ch (job_stopped label i.state) (record s {
          jobs = insert label (ended i) s.jobs;
          signals = s.signals ++ stop_signals os i.pid i.process_handle;
        })
  unfolding stop_job
  stop_job-stops i e = rw (
    e,
    end_process-signals i.pid i.process_handle _,
    lookup-insert label label,
    eq_refl label,
    insert-insert,
  )

  -- How a call of stop_job can end.
  pub data StopAnswer (r : Outcome Unit × System) : Type 0 where
    missing : lookup label s.jobs ≡ none → r ≡ (fails (job_not_found label), s) → StopAnswer r
    stops :
        (i : JobInstance)
        → lookup label s.jobs ≡ some i
        → r
          ≡ send ch (job_stopped label i.state) (record s {
            jobs = insert label (ended i) s.jobs;
            signals = s.signals ++ stop_signals os i.pid i.process_handle;
          })
        → StopAnswer r

  -- Every call of stop_job, with no other call in between: on an unknown label it returns
  -- JobNotFound and changes nothing. On any other, whatever its state, it sends SIGTERM to the job's
  -- process if there is one, then SIGKILL if a monitor does not end in time, makes the job Stopped
  -- with no process, no start time and no monitor, and sends the event with the state before.
  pub stop_job_cases : StopAnswer (stop_job os ch label s)
  stop_job_cases = elim (Option-cases (lookup label s.jobs)) [
    | inl e ↦ missing e (stop_job-missing e)
    | inr (i, e) ↦ stops i e (stop_job-stops i e)
  ]
