-- ===== src/Examples/Locks.antt =====
-- The supervisor's two locks, cancel_restart and start_restart_processor, on concrete queues.
use text.Mathlib.Text.{◌==◌ as str_eq}
use nusa_launchd.Shared.{ap, ◌≡◌, refl, inl, inr, String, some, List, [], ◌∷◌, arith}
use nusa_launchd.Time.{from_secs}
use nusa_launchd.Dict.{lookup, insert, remove}
use nusa_launchd.Job.Supervisor.{
  JobSupervisor, new, enqueue, track, calculate_backoff, schedule_restart, get_ready_jobs,
  cancel_restart, restart_processor,
}
use nusa_launchd.Job.Supervisor.Queue.{IsSorted}
use nusa_launchd.Job.Supervisor.Invariant.{Queued, Listed}
use nusa_launchd.Job.Supervisor.Schedule.{scheduled_job, scheduled_info}
use nusa_launchd.Job.Supervisor.Ticks.{restart_processor_lem}
use nusa_launchd.Job.Supervisor.Cancel.{cancel_restart-schedule_restart}
use nusa_launchd.Job.Supervisor.Locks.{
  Moves, here, next, enqueues, polls, tracks, IsStale, move, Moves-IsSorted,
  schedule_restart-overtaken,
}
use nusa_launchd.Examples.Data.{web_supervision, busy, restart_at, waiting_for}

queue-IsSorted : IsSorted busy.restart_queue
queue-IsSorted = ((omega arith, (omega arith, tt)), ((omega arith, tt), (tt, tt)))

restart_processor_lem_example : restart_processor (5 ∷ 12 ∷ 25 ∷ []) busy ≡ get_ready_jobs 25 busy
restart_processor_lem_example =
    restart_processor_lem (5 ∷ 12 ∷ []) 25 busy (omega arith, (omega arith, tt)) queue-IsSorted

-- A queue with two restarts of another job, and the restart that is to be cancelled.
abbrev before : JobSupervisor
before = record {
  restart_queue = restart_at "db" 10 ∷ restart_at "db" (from_secs 30) ∷ [];
  backoff_tracker = ("db", waiting_for (from_secs 30)) ∷ [];
}

abbrev after : JobSupervisor
after = record {
  restart_queue =
      restart_at "db" 10
      ∷ scheduled_job "web" web_supervision 0 0
      ∷ restart_at "db" (from_secs 30)
      ∷ [];
  backoff_tracker =
      ("db", waiting_for (from_secs 30)) ∷ ("web", scheduled_info web_supervision 0 1) ∷ [];
}

schedule_before_test :
    schedule_restart "web" web_supervision 0 0 1 before ≡ some (after, from_secs 2)
unfolding schedule_restart insert
schedule_before_test = refl

web_unqueued : ¬ Queued "web" before.restart_queue
web_unqueued (inl e) = cc (ap (str_eq "db") e)
web_unqueued (inr (inl e)) = cc (ap (str_eq "db") e)
web_unqueued (inr (inr h)) = h

cancel_restart-schedule_restart_example : cancel_restart "web" after ≡ before
unfolding lookup
cancel_restart-schedule_restart_example =
    cancel_restart-schedule_restart "web" web_supervision 0 0 1 (from_secs 2) before after
      (omega arith) (omega arith) ((omega arith, tt), (tt, tt)) web_unqueued refl
      schedule_before_test

-- The first blocks of two calls, a poll that takes one of the two restarts, and the second block of
-- its call, which leaves an entry in the tracker for a restart that is gone.
abbrev both : JobSupervisor
both = record {
  restart_queue = restart_at "web" 10 ∷ restart_at "db" 20 ∷ [];
  backoff_tracker = [];
}

abbrev overtaken : JobSupervisor
overtaken = record {
  restart_queue = restart_at "db" 20 ∷ [];
  backoff_tracker = ("web", waiting_for 10) ∷ [];
}

moves : Moves new overtaken
unfolding move enqueue track get_ready_jobs insert remove new
moves =
    next {t = record { restart_queue = restart_at "db" 20 ∷ []; backoff_tracker = [] }}
      (next {t = both}
        (next {t = record { restart_queue = restart_at "db" 20 ∷ []; backoff_tracker = [] }}
          (next here (enqueues (restart_at "db" 20)) refl) (enqueues (restart_at "web" 10)) refl)
        (polls 15) refl)
      (tracks "web" (waiting_for 10)) refl

Moves-IsSorted_example : IsSorted overtaken.restart_queue
Moves-IsSorted_example = Moves-IsSorted overtaken moves

web_taken_test :
    get_ready_jobs (from_secs 2) (enqueue (scheduled_job "web" web_supervision 0 0) new)
    ≡ some (new, "web" ∷ [])
unfolding get_ready_jobs enqueue remove new calculate_backoff
web_taken_test = refl

new-IsSorted : IsSorted new.restart_queue
unfolding new
new-IsSorted = tt

new_unqueued : ¬ Queued "web" new.restart_queue
unfolding new
new_unqueued h = h

schedule_restart-overtaken_example :
    Listed "web" ("web" ∷ [])
    × ((t : JobSupervisor) × (logged : List String) × (restart_processor
            (from_secs 3 ∷ from_secs 4 ∷ [])
            (track "web" (scheduled_info web_supervision 0 1) new)
          ≡ some (t, logged))
        × IsStale "web" (scheduled_info web_supervision 0 1) t)
unfolding calculate_backoff
schedule_restart-overtaken_example =
    schedule_restart-overtaken "web" web_supervision 0 0 1 (from_secs 2)
      (from_secs 3 ∷ from_secs 4 ∷ []) new new ("web" ∷ []) new-IsSorted new_unqueued (omega arith)
      web_taken_test
