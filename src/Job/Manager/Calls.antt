-- ===== src/Job/Manager/Calls.antt =====
-- The theorems on calls that load, start and restart one job, at concrete managers.
use nusa_launchd.Shared.{none, true, arith, ◌⊎◌, String, List, ◌≡◌, refl, some, [], ◌∷◌, ◌++◌}
use nusa_launchd.Dict.{lookup, insert}
use nusa_launchd.Event.{send}
use nusa_launchd.Job.State.{
  System, JobInstance, running, stopped, empty_system, RestartRequest, job_started, job_stopped,
}
use nusa_launchd.Task.{done, waits}
use nusa_launchd.Shared.Int.{pos}
use nusa_launchd.Job.Manager.Backlog.{Backlog, Step, empty, answer}
use nusa_launchd.Job.Manager.Backlog.Exits.{handle_process_exit-Step}
use nusa_launchd.Job.Manager.{
  handle_process_exit, limit_reached, calculate_backoff_duration, load_job, load_new, new_instance,
  begin_start, may_start, commit_start, start_job, stop_job, restart_job,
}
use nusa_launchd.Process.Spawner.Laws.{monitor}
use nusa_launchd.Job.Manager.Blocks.{run_block}
use nusa_launchd.Job.Manager.Load.{LoadAnswer, load_job_cases}
use nusa_launchd.Job.Manager.Start.{started}
use nusa_launchd.Job.Manager.Stop.{ended, stop_signals}
use nusa_launchd.Job.Manager.Cycle.{restart_job_lem, stop_job-overtaken}
use nusa_launchd.Job.Manager.Undo.{stop_job-start_job}
use nusa_launchd.Job.Manager.Delay.{requested, settled, serve_requests, serve_requests_lem}
use nusa_launchd.Job.Manager.Examples.{running_web, running_present}
use nusa_launchd.Examples.Data.{
  web, linux, open_channels, loaded_system, starting_system, running_system, waiting_system,
}

load_job_example :
    LoadAnswer open_channels web empty_system (load_job open_channels web empty_system)
load_job_example = load_job_cases open_channels web empty_system

begin_test : begin_start 10 "web" loaded_system ≡ (done (some web), starting_system)
unfolding run_block load_job load_new begin_start may_start new_instance send lookup insert
begin_test = refl

stop_job-overtaken_example :
    let u = (stop_job linux open_channels "web" starting_system).1 in
    ((i : JobInstance) × (lookup "web" u.jobs ≡ some i) × (i.state ≡ stopped))
    × ((j : JobInstance) × (lookup "web"
            (commit_start open_channels 20 "web" 7 (monitor web 7) u).1.jobs
          ≡ some j)
        × (j.state ≡ running))
stop_job-overtaken_example =
    stop_job-overtaken linux open_channels open_channels 10 20 7 (monitor web 7) "web" web
      loaded_system starting_system begin_test

restart_job_lem_example :
    restart_job linux linux open_channels open_channels 40 50 "web" running_system
    ≡ send open_channels (job_started "web" 7 50) (record running_system {
      jobs = insert "web" (started (ended running_web) 7 50 (monitor web 7)) running_system.jobs;
      signals = running_system.signals ++ stop_signals linux (some 7) (some (monitor web 7));
      events = running_system.events ++ job_stopped "web" running ∷ [];
      monitors = running_system.monitors ++ monitor web 7 ∷ [];
    })
restart_job_lem_example =
    restart_job_lem linux linux open_channels open_channels 40 50 "web" running_system running_web 7
      running_present refl refl

-- The requests for a restart of the job and of one that is not loaded.
abbrev requests : List RestartRequest
requests = record { label = "web"; delay = 4000000000 } ∷ record { label = "db"; delay = 0 } ∷ []

serve_requests_lem_example :
    (t : System) × (serve_requests open_channels requests waiting_system ≡ (done tt, t))
    × ((label : String)
        → lookup label t.jobs
          ≡ settled (requested label requests) (lookup label waiting_system.jobs))
serve_requests_lem_example = serve_requests_lem open_channels (λ e. refl) requests waiting_system

stop_job-start_job_example :
    stop_job linux open_channels "web" (start_job linux open_channels 10 20 "web" loaded_system).1
    ≡ (
      done tt,
      record loaded_system {
        signals = loaded_system.signals ++ stop_signals linux (some 7) (some (monitor web 7));
        events = loaded_system.events ++ job_started "web" 7 20 ∷ job_stopped "web" running ∷ [];
        monitors = loaded_system.monitors ++ monitor web 7 ∷ [];
      },
    )
unfolding run_block load_job load_new new_instance send lookup insert
stop_job-start_job_example =
    stop_job-start_job linux linux open_channels open_channels 10 20 "web" web loaded_system 7 refl
      refl refl refl

-- The crash of the process, with a channel that is empty.
handle_process_exit-Step_example :
    let r : RestartRequest = record { label = "web"; delay = 4000000000 } in
    (c : Backlog) × (t : System) × Step open_channels empty c
    × (((handle_process_exit open_channels 30 "web" (pos 1) none true running_system ≡ (done tt, t))
          × (t.requests ≡ running_system.requests ++ r ∷ [])
          × (c.queue ≡ r ∷ []))
        ⊎ ((handle_process_exit open_channels 30 "web" (pos 1) none true running_system
              ≡ (waits, t))
            × (c.sender ≡ some r)))
unfolding answer limit_reached calculate_backoff_duration
handle_process_exit-Step_example =
    handle_process_exit-Step open_channels 30 "web" (pos 1) none running_system running_web
      4000000000 empty (λ r. refl) (λ e. refl) refl running_present refl refl (omega arith)
