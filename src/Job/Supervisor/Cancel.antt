-- ===== src/Job/Supervisor/Cancel.antt =====
-- cancel_restart undoes schedule_restart.
use text.Mathlib.Text.{◌==◌ as str_eq}
use text.Mathlib.TextEquality.{eq_iff}
use text.Mathlib.TextPositions.{eq_refl}
use nusa_launchd.Shared.{ℕ, ◌≡◌, refl, String, none, some, not, List, [], ◌∷◌, retain, arith}
use nusa_launchd.Dict.{lookup, remove-insert}
use nusa_launchd.Job.Config.{SupervisionConfig}
use nusa_launchd.Job.Supervisor.{RestartJob, JobSupervisor, schedule_restart, cancel_restart}
use nusa_launchd.Job.Supervisor.Queue.{IsSorted, insert_after}
use nusa_launchd.Job.Supervisor.Invariant.{Queued}
use nusa_launchd.Job.Supervisor.Schedule.{scheduled_job, InRange}
use nusa_launchd.Job.Supervisor.Effects.{schedule_result}

retain_unqueued :
    (label : String) (q : List RestartJob)
    → ¬ Queued label q
    → retain (λ (j : RestartJob). not (str_eq j.label label)) q ≡ q
unfolding retain
retain_unqueued label [] n = refl
retain_unqueued label (j ∷ q) n = ground (arith, eq_iff j.label label, retain_unqueued label q)

retain-insert_after :
    (j : RestartJob) (q : List RestartJob)
    → ¬ Queued j.label q
    → retain (λ (k : RestartJob). not (str_eq k.label j.label)) (insert_after j q) ≡ q
unfolding retain insert_after
retain-insert_after j [] n = rw (eq_refl j.label)
retain-insert_after j (k ∷ q) n = ground (
  arith,
  eq_iff k.label j.label,
  eq_refl j.label,
  retain_unqueued j.label q,
  retain-insert_after j q,
)

-- Scheduling a restart of a label that has none, on a sorted queue and with the clock in range, and
-- then cancelling it gives back the supervisor as it was, queue and tracker.
pub cancel_restart-schedule_restart :
    (label : String) (config : SupervisionConfig) (n now now' backoff : ℕ) (s s' : JobSupervisor)
    → InRange now
    → InRange now'
    → IsSorted s.restart_queue
    → ¬ Queued label s.restart_queue
    → lookup label s.backoff_tracker ≡ none
    → schedule_restart label config n now now' s ≡ some (s', backoff)
    → cancel_restart label s' ≡ s
unfolding cancel_restart
cancel_restart-schedule_restart label config n now now' backoff s s' h h' sorted queued absent e =
    let (q, m, b) = schedule_result label config n now now' s s' backoff h h' sorted e in
    rw (
      q,
      m,
      retain-insert_after (scheduled_job label config n now) s.restart_queue queued,
      remove-insert label _ s.backoff_tracker absent,
    )
