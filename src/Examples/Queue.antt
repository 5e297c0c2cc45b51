-- ===== src/Examples/Queue.antt =====
-- The theorems on the supervisor's queue, at a queue of three restarts.
use nusa_launchd.Shared.{◌+◌, ◌-◌, ◌≡◌, refl, some, List, [], ◌∷◌, arith}
use nusa_launchd.Time.{from_secs}
use nusa_launchd.Dict.{insert, remove}
use nusa_launchd.Job.Supervisor.{
  JobSupervisor, new, calculate_backoff, schedule_restart, get_ready_jobs, is_in_backoff,
}
use nusa_launchd.Job.Supervisor.Queue.{IsSorted}
use nusa_launchd.Job.Supervisor.Ready.{labels, due, later, remove_all, get_ready_jobs_lem}
use nusa_launchd.Job.Supervisor.Invariant.{Listed, IsWellFormed}
use nusa_launchd.Job.Supervisor.Schedule.{scheduled_job, scheduled_info}
use nusa_launchd.Job.Supervisor.Runs.{Call, schedules, polls, cancels, run, run-IsWellFormed}
use nusa_launchd.Job.Supervisor.Effects.{schedule_restart_served}
use nusa_launchd.Examples.Data.{web_supervision, busy, restart_at}

-- Two restarts are scheduled, one is taken when it is due, and the other is cancelled.
abbrev calls : List Call
calls =
    schedules "web" web_supervision 3 0 1
    ∷ schedules "db" web_supervision 0 5 6
    ∷ polls (from_secs 4)
    ∷ cancels "web"
    ∷ []

run-IsWellFormed_example : (s : JobSupervisor) × (run new calls ≡ some s) × IsWellFormed s
run-IsWellFormed_example =
    run-IsWellFormed calls
      ((omega arith, omega arith), ((omega arith, omega arith), (tt, (tt, tt))))

busy-IsSorted : IsSorted busy.restart_queue
busy-IsSorted = ((omega arith, (omega arith, tt)), ((omega arith, tt), (tt, tt)))

get_ready_jobs_lem_example :
    get_ready_jobs 20 busy
    ≡ some (
      record {
        restart_queue = later 20 busy.restart_queue;
        backoff_tracker = remove_all (labels (due 20 busy.restart_queue)) busy.backoff_tracker;
      },
      labels (due 20 busy.restart_queue),
    )
get_ready_jobs_lem_example = get_ready_jobs_lem 20 busy

-- The supervisor after the jobs due at 20 are taken.
abbrev rest : JobSupervisor
rest = record { restart_queue = restart_at "web" 30 ∷ []; backoff_tracker = [] }

get_ready_jobs_test : get_ready_jobs 20 busy ≡ some (rest, "web" ∷ "db" ∷ [])
unfolding get_ready_jobs remove
get_ready_jobs_test = refl

-- A restart on an empty supervisor, two seconds after the readings 0 and 1 of the clock.
abbrev one : JobSupervisor
one = record {
  restart_queue = scheduled_job "web" web_supervision 0 0 ∷ [];
  backoff_tracker = ("web", scheduled_info web_supervision 0 1) ∷ [];
}

schedule_restart_test : schedule_restart "web" web_supervision 0 0 1 new ≡ some (one, from_secs 2)
unfolding schedule_restart new calculate_backoff insert
schedule_restart_test = refl

take_one_test : get_ready_jobs (from_secs 2) one ≡ some (new, "web" ∷ [])
unfolding get_ready_jobs new calculate_backoff remove
take_one_test = refl

new-IsSorted : IsSorted new.restart_queue
unfolding new
new-IsSorted = tt

schedule_restart_served_example :
    (is_in_backoff "web" 5 6 one ≡ some (1 + from_secs 2 - 6)) × Listed "web" ("web" ∷ [])
schedule_restart_served_example =
    schedule_restart_served "web" web_supervision 0 0 1 5 6 (from_secs 2) new one new (from_secs 2)
      ("web" ∷ []) (omega arith) (omega arith) new-IsSorted schedule_restart_test (omega arith)
      (omega arith) take_one_test
