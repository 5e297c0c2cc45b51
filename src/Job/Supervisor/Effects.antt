-- ===== src/Job/Supervisor/Effects.antt =====
-- What one call of the supervisor means for a later one.
use text.Mathlib.Text.{◌==◌ as str_eq}
use text.Mathlib.TextEquality.{eq_iff}
use text.Mathlib.TextPositions.{eq_refl}
use nusa_launchd.Shared.{
  ℕ, ◌+◌, ◌-◌, Option-cases, ◌≤◌, ◌<◌, ◌≡◌, refl, inl, inr, String, not, none, some, List, [], ◌∷◌,
  ◌++◌, All, retain, arith, if◌then◌else◌,
}
use nusa_launchd.Dict.{lookup, insert, lookup-insert, lookup-remove}
use nusa_launchd.Job.Config.{SupervisionConfig}
use nusa_launchd.Job.Supervisor.{
  RestartJob, BackoffInfo, JobSupervisor, is_due, calculate_backoff, schedule_restart,
  get_ready_jobs, cancel_restart, is_in_backoff,
}
use nusa_launchd.Job.Supervisor.Queue.{IsSorted, insert_after}
use nusa_launchd.Job.Supervisor.Ready.{labels, due, later, remove_all, get_ready_jobs_lem}
use nusa_launchd.Job.Supervisor.Invariant.{Queued, Listed, lookup-remove_all}
use nusa_launchd.Job.Supervisor.Schedule.{
  scheduled_job, scheduled_info, InRange, schedule_restart_lem,
}

pub due_none :
    (now n : ℕ) (q : List RestartJob)
    → now < n
    → All (λ (k : RestartJob). n ≤ k.scheduled_at) q
    → (due now q ≡ []) × (later now q ≡ q)
unfolding due later retain is_due
due_none now n [] h a = (refl, refl)
due_none now n (j ∷ q) h a = ground (arith, due_none now n q)

All-due :
    (now : ℕ) (q : List RestartJob) → All (λ (j : RestartJob). j.scheduled_at ≤ now) (due now q)
unfolding due retain is_due
All-due now [] = tt
All-due now (j ∷ q) = ground (arith, All-due now q)

All-later :
    (now : ℕ) (q : List RestartJob) → All (λ (j : RestartJob). now < j.scheduled_at) (later now q)
unfolding later retain is_due
All-later now [] = tt
All-later now (j ∷ q) = ground (arith, All-later now q)

due-append-later : (now : ℕ) (q : List RestartJob) → IsSorted q → q ≡ due now q ++ later now q
unfolding due later retain is_due
due-append-later now [] s = refl
due-append-later now (j ∷ q) s =
    ground (arith, due-append-later now q s.1, due_none now j.scheduled_at q)

pub poll_result :
    (now : ℕ) (s s' : JobSupervisor) (ready : List String)
    → get_ready_jobs now s ≡ some (s', ready)
    → (s'.restart_queue ≡ later now s.restart_queue)
      × (s'.backoff_tracker ≡ remove_all (labels (due now s.restart_queue)) s.backoff_tracker)
      × (ready ≡ labels (due now s.restart_queue))
poll_result now s s' ready e = ground (arith, get_ready_jobs_lem now s)

-- On a sorted queue the jobs that get_ready_jobs takes are the front of the queue, in its order, and
-- the jobs that it keeps are the rest.
pub get_ready_jobs_takes_front :
    (now : ℕ) (s s' : JobSupervisor) (ready : List String)
    → IsSorted s.restart_queue
    → get_ready_jobs now s ≡ some (s', ready)
    → (front : List RestartJob) × (s.restart_queue ≡ front ++ s'.restart_queue)
      × (ready ≡ labels front)
      × All (λ (j : RestartJob). j.scheduled_at ≤ now) front
      × All (λ (j : RestartJob). now < j.scheduled_at) s'.restart_queue
get_ready_jobs_takes_front now s s' ready sorted e =
    let (q, _, r) = poll_result now s s' ready e in
    (
      due now s.restart_queue,
      rw q (due-append-later now s.restart_queue sorted),
      r,
      All-due now s.restart_queue,
      rw q (All-later now s.restart_queue),
    )

not-Queued-cancel :
    (label : String) (q : List RestartJob)
    → ¬ Queued label (retain (λ (j : RestartJob). not (str_eq j.label label)) q)
unfolding retain
not-Queued-cancel label [] h = h
not-Queued-cancel label (j ∷ q) h = ground (arith, eq_iff j.label label, not-Queued-cancel label q)

pub Queued-due :
    (label : String) (now : ℕ) (q : List RestartJob)
    → Listed label (labels (due now q))
    → Queued label q
unfolding due retain
Queued-due label now [] h = h
Queued-due label now (j ∷ q) h = ground (arith, Queued-due label now q)

not_in_backoff :
    (label : String) (t t' : ℕ) (s : JobSupervisor)
    → lookup label s.backoff_tracker ≡ none
    → is_in_backoff label t t' s ≡ none
unfolding is_in_backoff
not_in_backoff label t t' s e = ground arith

-- After cancel_restart no restart of the label is queued, a later get_ready_jobs does not return
-- it, and is_in_backoff answers None for it; the tracker's other entries stay.
pub cancel_restart_lem :
    (label other : String) (s : JobSupervisor) (now t t' : ℕ)
    → let s' = cancel_restart label s in
      (¬ Queued label s'.restart_queue)
      × (¬ Listed label (labels (due now s'.restart_queue)))
      × (is_in_backoff label t t' s' ≡ none)
      × (lookup other s'.backoff_tracker
          ≡ (if str_eq label other then none else lookup other s.backoff_tracker))
unfolding cancel_restart
cancel_restart_lem label other s now t t' = (
  not-Queued-cancel label s.restart_queue,
  λ l. not-Queued-cancel label s.restart_queue (Queued-due label now _ l),
  not_in_backoff label t t' (cancel_restart label s) (rw (lookup-remove, eq_refl label)),
  lookup-remove label other s.backoff_tracker,
)

forgotten :
    (label : String) (ls : List String) (m : List (String × BackoffInfo))
    → Listed label ls
    → lookup label (remove_all ls m) ≡ none
forgotten label ls m l = elim (Option-cases (lookup label (remove_all ls m))) [
  | inl e ↦ e
  | inr (info, e) ↦ absurd ((lookup-remove_all label info ls m e).1 l)
]

-- When one restart of a label is due and another is not, get_ready_jobs leaves the later one in the
-- queue and forgets the label: is_in_backoff answers None although a restart is scheduled.
pub get_ready_jobs_untracks :
    (label : String) (now t t' : ℕ) (s s' : JobSupervisor) (ready : List String)
    → Listed label (labels (due now s.restart_queue))
    → Queued label (later now s.restart_queue)
    → get_ready_jobs now s ≡ some (s', ready)
    → Queued label s'.restart_queue × (is_in_backoff label t t' s' ≡ none)
get_ready_jobs_untracks label now t t' s s' ready d l e =
    let (q, m, r) = poll_result now s s' ready e in
    (rw q l, not_in_backoff label t t' s' (rw m (forgotten label _ s.backoff_tracker d)))

pub served :
    (j : RestartJob) (at : ℕ) (q : List RestartJob)
    → j.scheduled_at ≤ at
    → Listed j.label (labels (due at (insert_after j q)))
unfolding due retain is_due insert_after
served j at [] h = ground arith
served j at (k ∷ q) h = ground (arith, served j at q h)

pub schedule_result :
    (label : String) (config : SupervisionConfig) (n now now' : ℕ) (s s₁ : JobSupervisor)
    (backoff : ℕ)
    → InRange now
    → InRange now'
    → IsSorted s.restart_queue
    → schedule_restart label config n now now' s ≡ some (s₁, backoff)
    → (s₁.restart_queue ≡ insert_after (scheduled_job label config n now) s.restart_queue)
      × (s₁.backoff_tracker ≡ insert label (scheduled_info config n now') s.backoff_tracker)
      × (backoff ≡ calculate_backoff config n)
schedule_result label config n now now' s s₁ backoff h h' sorted e =
    ground (arith, schedule_restart_lem label config n now now' s h h' sorted)

in_backoff :
    (label : String) (t t' : ℕ) (info : BackoffInfo) (s : JobSupervisor)
    → lookup label s.backoff_tracker ≡ some info
    → t < info.backoff_until
    → is_in_backoff label t t' s ≡ some (info.backoff_until - t')
unfolding is_in_backoff
in_backoff label t t' info s e h = ground arith

-- A restart that schedule_restart accepts, on a sorted queue and with the clock in range, puts the
-- label in backoff until its time by the second reading, and a get_ready_jobs that follows, at or
-- after its time by the first reading, returns the label.
pub schedule_restart_served :
    (label : String) (config : SupervisionConfig) (n now now' t t' at : ℕ) (s s₁ s₂ : JobSupervisor)
    (backoff : ℕ) (ready : List String)
    → InRange now
    → InRange now'
    → IsSorted s.restart_queue
    → schedule_restart label config n now now' s ≡ some (s₁, backoff)
    → t < now' + backoff
    → now + backoff ≤ at
    → get_ready_jobs at s₁ ≡ some (s₂, ready)
    → (is_in_backoff label t t' s₁ ≡ some (now' + backoff - t')) × Listed label ready
schedule_restart_served label config n now now' t t' at s s₁ s₂ backoff ready h h' sorted e lt le
      p =
    let (q, m, b) = schedule_result label config n now now' s s₁ backoff h h' sorted e in
    let (_, _, r) = poll_result at s₁ s₂ ready p in
    (
      rw b (
          in_backoff label t t' (scheduled_info config n now') s₁
            (rw (m, lookup-insert, eq_refl label)) (omega arith)),
      rw (r, q) (served (scheduled_job label config n now) at s.restart_queue (omega arith)),
    )
