-- ===== src/Job/Supervisor/Runs.antt =====
-- Runs of the supervisor: what holds after any sequence of calls, and what calls do to one another.
use text.Mathlib.Text.{◌==◌ as str_eq}
use text.Mathlib.TextEquality.{eq_iff}
use nusa_launchd.Shared.{
  ℕ, ◌≡◌, refl, ◌≢◌, inl, inr, String, not, false_iff, Option, some, List, [], ◌∷◌, All, retain,
  arith, Bool-cases,
}
use nusa_launchd.Shared.Options.{◌>>=◌}
use nusa_launchd.Dict.{lookup, insert, lookup-insert, lookup-remove}
use nusa_launchd.Job.Config.{SupervisionConfig}
use nusa_launchd.Job.Supervisor.{
  RestartJob, JobSupervisor, new, schedule_restart, get_ready_jobs, cancel_restart,
}
use nusa_launchd.Job.Supervisor.Queue.{insert_after}
use nusa_launchd.Job.Supervisor.Ready.{labels, due, later, remove_all, get_ready_jobs_lem}
use nusa_launchd.Job.Supervisor.Invariant.{
  Queued, IsWellFormed, Queued-insert_after, IsSorted-retain, lookup-remove_all, Queued-later,
}
use nusa_launchd.Job.Supervisor.Schedule.{
  scheduled_job, scheduled_info, InRange, schedule_restart_lem, insert_after-IsSorted,
}

-- A call with its readings of the clock.
pub data Call : Type 0 where
  schedules : String → SupervisionConfig → ℕ → ℕ → ℕ → Call
  polls : ℕ → Call
  cancels : String → Call

-- `none` is a panic, or a loop that ran out of fuel.
pub step : JobSupervisor → Call → Option JobSupervisor
step s (schedules label config n now now') = do
  (s', backoff) ← schedule_restart label config n now now' s
  some s'
step s (polls now) = do (s', ready) ← get_ready_jobs now s; some s'
step s (cancels label) = some (cancel_restart label s)

pub run : JobSupervisor → List Call → Option JobSupervisor
run s [] = some s
run s (c ∷ cs) = do s' ← step s c; run s' cs

abbrev pub InRangeCall : Call → Type 0
InRangeCall (schedules label config n now now') = InRange now × InRange now'
InRangeCall (polls now) = Unit
InRangeCall (cancels label) = Unit

new-IsWellFormed : IsWellFormed new
unfolding new lookup
new-IsWellFormed = record { sorted = tt; tracked = λ l info h. cc }

schedule-IsWellFormed :
    (label : String) (config : SupervisionConfig) (n now now' : ℕ) (s : JobSupervisor)
    → IsWellFormed s
    → IsWellFormed (record {
      restart_queue = insert_after (scheduled_job label config n now) s.restart_queue;
      backoff_tracker = insert label (scheduled_info config n now') s.backoff_tracker;
    })
schedule-IsWellFormed label config n now now' s w = record {
  sorted = insert_after-IsSorted _ _ w.sorted;
  tracked = λ l info h.
      let e = rw lookup-insert at h in
      Queued-insert_after l _ _ (ground (arith, eq_iff label l, w.tracked l info));
}

poll-IsWellFormed :
    (now : ℕ) (s : JobSupervisor)
    → IsWellFormed s
    → IsWellFormed (record {
      restart_queue = later now s.restart_queue;
      backoff_tracker = remove_all (labels (due now s.restart_queue)) s.backoff_tracker;
    })
unfolding later
poll-IsWellFormed now s w = record {
  sorted = IsSorted-retain _ _ w.sorted;
  tracked = λ l info h.
      let (e, n) = lookup-remove_all l info _ _ h in
      Queued-later l now s.restart_queue (w.tracked l info e) n;
}

Queued-cancel :
    (l label : String) (q : List RestartJob)
    → label ≢ l
    → Queued l q
    → Queued l (retain (λ (j : RestartJob). not (str_eq j.label label)) q)
unfolding retain
Queued-cancel l label [] n h = h
Queued-cancel l label (j ∷ q) n h = ground (arith, eq_iff j.label label, Queued-cancel l label q n)

cancel-IsWellFormed :
    (label : String) (s : JobSupervisor) → IsWellFormed s → IsWellFormed (cancel_restart label s)
unfolding cancel_restart
cancel-IsWellFormed label s w = record {
  sorted = IsSorted-retain _ _ w.sorted;
  tracked = λ l info h.
      let e = rw lookup-remove at h in
      elim (Bool-cases (str_eq label l)) [
        | inl p ↦ absurd (ground arith)
        | inr p ↦
            Queued-cancel l label s.restart_queue ((false_iff _ (eq_iff label l)).0 p)
              (w.tracked l info (ground arith))
      ];
}

step-IsWellFormed :
    (s : JobSupervisor) (c : Call)
    → InRangeCall c
    → IsWellFormed s
    → (s' : JobSupervisor) × (step s c ≡ some s') × IsWellFormed s'
unfolding step
step-IsWellFormed s (schedules label config n now now') r w = (
  _,
  rw (schedule_restart_lem label config n now now' s r.0 r.1 w.sorted),
  schedule-IsWellFormed label config n now now' s w,
)
step-IsWellFormed s (polls now) r w = (_, rw (get_ready_jobs_lem now s), poll-IsWellFormed now s w)
step-IsWellFormed s (cancels label) r w = (_, refl, cancel-IsWellFormed label s w)

run_from-IsWellFormed :
    (s : JobSupervisor) (cs : List Call)
    → All InRangeCall cs
    → IsWellFormed s
    → (s' : JobSupervisor) × (run s cs ≡ some s') × IsWellFormed s'
unfolding run
run_from-IsWellFormed s [] r w = (s, refl, w)
run_from-IsWellFormed s (c ∷ cs) r w =
    let (s₁, e, w₁) = step-IsWellFormed s c r.0 w in
    let (s₂, e₂, w₂) = run_from-IsWellFormed s₁ cs r.1 w₁ in (s₂, rw e e₂, w₂)

-- Any sequence of calls on a new supervisor, with the clock in range, runs to its end without a
-- panic, and leaves a queue sorted by time in which every label of the tracker has a restart.
pub run-IsWellFormed :
    (cs : List Call)
    → All InRangeCall cs
    → (s : JobSupervisor) × (run new cs ≡ some s) × IsWellFormed s
run-IsWellFormed cs r = run_from-IsWellFormed new cs r new-IsWellFormed
