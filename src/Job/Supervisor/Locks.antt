-- ===== src/Job/Supervisor/Locks.antt =====
-- The supervisor's two locks. schedule_restart and cancel_restart release the queue's lock before they
-- take the tracker's, so blocks of other calls can come in between. get_ready_jobs holds the queue's
-- lock all along, and takes the tracker's for each removal: a block on the tracker that comes between
-- two removals comes to the same as one before or after the call, so the call is one block here.
use text.Mathlib.Text.{◌==◌ as str_eq}
use text.Mathlib.TextEquality.{eq_iff}
use text.Mathlib.TextPositions.{eq_refl}
use nusa_launchd.Shared.{
  ℕ, ◌≤◌, ◌≡◌, refl, ◌∙◌, String, Option, some, not, List, [], ◌∷◌, ◌++◌, retain, arith, inr,
}
use nusa_launchd.Shared.Options.{◌>>=◌}
use nusa_launchd.Dict.{lookup, insert, remove, lookup-insert, lookup-remove}
use nusa_launchd.Job.Config.{SupervisionConfig}
use nusa_launchd.Job.Supervisor.{
  RestartJob, BackoffInfo, JobSupervisor, new, enqueue, track, unqueue, untrack, get_ready_jobs,
  is_due, sort_by_time, restart_processor,
}
use nusa_launchd.Job.Supervisor.Queue.{
  IsSorted, insert_after, sort_by_time-IsSorted, sort_by_time-push,
}
use nusa_launchd.Job.Supervisor.Ready.{labels, due, later, remove_all, get_ready_jobs_lem}
use nusa_launchd.Job.Supervisor.Invariant.{Queued, Listed, IsSorted-retain}
use nusa_launchd.Job.Supervisor.Schedule.{scheduled_job, scheduled_info}
use nusa_launchd.Job.Supervisor.Effects.{poll_result, served, Queued-due}
use nusa_launchd.Job.Supervisor.Ticks.{IsSorted-later, polled}

-- A block under one of the locks.
pub data Move : Type 0 where
  enqueues : RestartJob → Move
  tracks : String → BackoffInfo → Move
  polls : ℕ → Move
  unqueues : String → Move
  untracks : String → Move

unfoldable pub move : Move → JobSupervisor → Option JobSupervisor
move (enqueues job) s = some (enqueue job s)
move (tracks label info) s = some (track label info s)
move (polls now) s = do (s', ready_jobs) ← get_ready_jobs now s; some s'
move (unqueues label) s = some (unqueue label s)
move (untracks label) s = some (untrack label s)

-- Any blocks of any calls, in any order.
pub data Moves (s : JobSupervisor) : JobSupervisor → Type 0 where
  here : Moves s s
  next : {t u : JobSupervisor} → Moves s t → (m : Move) → move m t ≡ some u → Moves s u

move-IsSorted :
    (m : Move) (s t : JobSupervisor)
    → move m s ≡ some t
    → IsSorted s.restart_queue
    → IsSorted t.restart_queue
unfolding move enqueue track unqueue untrack
move-IsSorted (enqueues job) s t e h =
    let p : record s { restart_queue = sort_by_time (s.restart_queue ++ job ∷ []) } ≡ t = cc in
    rw (← p) (sort_by_time-IsSorted (s.restart_queue ++ job ∷ []))
move-IsSorted (tracks label info) s t e h =
    let p : record s { backoff_tracker = insert label info s.backoff_tracker } ≡ t = cc in
    rw (← p) h
move-IsSorted (polls now) s t e h =
    let p : polled now s ≡ t = cc (rw (get_ready_jobs_lem now s) at e) in
    rw (← p) (IsSorted-later now s.restart_queue h)
move-IsSorted (unqueues label) s t e h =
    let p : unqueue label s ≡ t = cc in
    rw (← p) (IsSorted-retain (λ (j : RestartJob). not (str_eq j.label label)) s.restart_queue h)
move-IsSorted (untracks label) s t e h =
    let p : record s { backoff_tracker = remove label s.backoff_tracker } ≡ t = cc in rw (← p) h

-- The queue stays sorted by time under any interleaving of the blocks of any calls.
pub Moves-IsSorted : (s : JobSupervisor) → Moves new s → IsSorted s.restart_queue
Moves-IsSorted s m = from new s m (unfold new in tt)
  where
    from : (s t : JobSupervisor) → Moves s t → IsSorted s.restart_queue → IsSorted t.restart_queue
    from s t here h = h
    from s u (next {t} r m e) h = move-IsSorted m t u e (from s t r h)

-- A supervisor that tracks a label with no restart of it in the queue.
pub record IsStale (label : String) (info : BackoffInfo) (s : JobSupervisor) : Type 0 where
  pub tracked : lookup label s.backoff_tracker ≡ some info
  pub unqueued : ¬ Queued label s.restart_queue

not-Queued-later :
    (label : String) (now : ℕ) (q : List RestartJob)
    → ¬ Queued label q
    → ¬ Queued label (later now q)
unfolding later retain
not-Queued-later label now [] n = n
not-Queued-later label now (j ∷ q) n = ground (arith, not-Queued-later label now q)

lookup-remove_all_other :
    (label : String) (ls : List String) (t : List (String × BackoffInfo))
    → ¬ Listed label ls
    → lookup label (remove_all ls t) ≡ lookup label t
unfolding remove_all
lookup-remove_all_other label [] t n = refl
lookup-remove_all_other label (l ∷ ls) t n =
    lookup-remove_all_other label ls (remove l t) (λ h. n (inr h))
    ∙ rw lookup-remove (ground (arith, eq_iff l label))

polled-IsStale :
    (label : String) (info : BackoffInfo) (now : ℕ) (s : JobSupervisor)
    → IsStale label info s
    → IsStale label info (polled now s)
polled-IsStale label info now s h = record {
  tracked =
      lookup-remove_all_other label (labels (due now s.restart_queue)) s.backoff_tracker
        (λ l. h.unqueued (Queued-due label now s.restart_queue l))
      ∙ h.tracked;
  unqueued = not-Queued-later label now s.restart_queue h.unqueued;
}

-- However often start_restart_processor polls, it never drops a stale entry.
restart_processor-IsStale :
    (label : String) (info : BackoffInfo) (ticks : List ℕ) (s : JobSupervisor)
    → IsStale label info s
    → (t : JobSupervisor) × (ready_jobs : List String) × (restart_processor ticks s
        ≡ some (t, ready_jobs))
      × IsStale label info t
unfolding restart_processor
restart_processor-IsStale label info [] s h = (s, [], refl, h)
restart_processor-IsStale label info (now ∷ ticks) s h =
    let (t, ready_jobs, e, k) =
      restart_processor-IsStale label info ticks (polled now s)
        (polled-IsStale label info now s h) in
    (t, labels (due now s.restart_queue) ++ ready_jobs, rw (get_ready_jobs_lem now s, e), k)

not-Queued-taken :
    (j : RestartJob) (at : ℕ) (q : List RestartJob)
    → j.scheduled_at ≤ at
    → ¬ Queued j.label q
    → ¬ Queued j.label (later at (insert_after j q))
unfolding later retain is_due insert_after
not-Queued-taken j at [] h n = ground arith
not-Queued-taken j at (k ∷ q) h n =
    ground (arith, not-Queued-taken j at q h, not-Queued-later j.label at q)

-- On a sorted queue with no restart of the label, a get_ready_jobs that comes between the two blocks
-- of schedule_restart, at or after the restart's time, returns the label; the second block then tracks
-- a label that has no restart, and no polling of start_restart_processor alone, however long, ever
-- drops that entry.
pub schedule_restart-overtaken :
    (label : String) (config : SupervisionConfig) (n now now' at : ℕ) (ticks : List ℕ)
    (s s' : JobSupervisor) (ready_jobs : List String)
    → let job = scheduled_job label config n now in
      let info = scheduled_info config n now' in
      IsSorted s.restart_queue
      → ¬ Queued label s.restart_queue
      → job.scheduled_at ≤ at
      → get_ready_jobs at (enqueue job s) ≡ some (s', ready_jobs)
      → Listed label ready_jobs
        × ((t : JobSupervisor) × (logged : List String) × (restart_processor ticks
                (track label info s')
              ≡ some (t, logged))
            × IsStale label info t)
unfolding enqueue track
schedule_restart-overtaken label config n now now' at ticks s s' ready_jobs sorted free due_at e =
    let job = scheduled_job label config n now in
    let info = scheduled_info config n now' in
    let (q, m, r) = poll_result at (enqueue job s) s' ready_jobs e in
    let push = sort_by_time-push job s.restart_queue sorted in
    (
      rw (r, push) (served job at s.restart_queue due_at),
      restart_processor-IsStale label info ticks
          (record s' { backoff_tracker = insert label info s'.backoff_tracker })
          (record {
            tracked = rw (lookup-insert, eq_refl label);
            unqueued = rw (q, push) (not-Queued-taken job at s.restart_queue due_at free);
          }),
    )
