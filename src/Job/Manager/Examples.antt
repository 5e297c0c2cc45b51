-- ===== src/Job/Manager/Examples.antt =====
-- The theorems on interleavings of the manager's blocks, at the start and the first crash of a job.
use nusa_launchd.Shared.{◌≡◌, refl, ◌≢◌, none, some, [], ◌∷◌, arith, true}
use nusa_launchd.Shared.Int.{pos}
use nusa_launchd.Dict.{lookup, insert}
use nusa_launchd.Time.{add_duration}
use nusa_launchd.Util.{job_not_found}
use nusa_launchd.Event.{send}
use nusa_launchd.Job.State.{System, JobInstance, running, backoff, empty_system}
use nusa_launchd.Task.{panics, done}
use nusa_launchd.Process.Spawner.Laws.{monitor}
use nusa_launchd.Job.Manager.{
  load_job, load_new, new_instance, begin_start, may_start, commit_start, abort_start, finish_stop,
  handle_process_exit, restart_exited, backed_off, limit_reached, request,
  calculate_backoff_duration, start_job, stop_job,
}
use nusa_launchd.Job.Manager.Blocks.{Steps, here, next, run_block}
use nusa_launchd.Job.Manager.Changes.{Effect}
use nusa_launchd.Job.Manager.Leaves.{Leaves}
use nusa_launchd.Job.Manager.Refines.{run_block-Effect}
use nusa_launchd.Job.Manager.Invariant.{IsConsistent, Steps-IsConsistent}
use nusa_launchd.Job.Manager.Persistence.{Loaded, Steps-Loaded, unwraps-ne-panics}
use nusa_launchd.Job.Manager.Start.{StartAnswer, start_job_cases}
use nusa_launchd.Job.Manager.Stop.{StopAnswer, stop_job_cases}
use nusa_launchd.Job.Manager.Exit.{ExitAnswer, handle_process_exit_cases}
use nusa_launchd.Job.Manager.Restarts.{Crash, crashes, Taking, Restarts, RunsUncounted, crashes-run}
use nusa_launchd.Examples.Data.{
  linux, web, open_channels, load_block, begin_block, commit_block, exit_block, loaded_system,
  starting_system, running_system, waiting_system,
}

load_quiet : (run_block load_block empty_system).0 ≢ panics
unfolding run_block load_job load_new send lookup
load_quiet p = cc

exit_quiet : (run_block exit_block running_system).0 ≢ panics
unfolding run_block load_job load_new begin_start commit_start may_start new_instance send lookup
    insert handle_process_exit restart_exited backed_off limit_reached request add_duration
    calculate_backoff_duration
exit_quiet p = cc

begin_quiet : (run_block begin_block loaded_system).0 ≢ panics
unfolding run_block load_job load_new begin_start may_start new_instance send lookup insert
begin_quiet p = cc

commit_quiet : (run_block commit_block starting_system).0 ≢ panics
unfolding run_block load_job load_new begin_start commit_start may_start new_instance send lookup
    insert
commit_quiet p = cc

load-Steps : Steps empty_system loaded_system
load-Steps = next here load_block load_quiet refl

run-Steps : Steps loaded_system running_system
run-Steps = next (next here begin_block begin_quiet refl) commit_block commit_quiet refl

all-Steps : Steps empty_system waiting_system
all-Steps =
    next (next (next load-Steps begin_block begin_quiet refl) commit_block commit_quiet refl)
      exit_block exit_quiet refl

-- The job once it runs, and in backoff after its first crash.
abbrev pub running_web : JobInstance
running_web = record {
  config = web;
  state = running;
  pid = some 7;
  start_time = some 20;
  restart_count = 0;
  last_exit_code = none;
  last_exit_signal = none;
  backoff_until = none;
  process_handle = some (monitor web 7);
}

abbrev waiting_web : JobInstance
waiting_web = record running_web {
  state = backoff;
  pid = none;
  restart_count = 1;
  last_exit_code = some (pos 1);
  backoff_until = some 4000000030;
  process_handle = none;
}

pub running_present : lookup "web" running_system.jobs ≡ some running_web
unfolding run_block load_job load_new begin_start commit_start may_start new_instance send lookup
    insert
running_present = refl

waiting_present : lookup "web" waiting_system.jobs ≡ some waiting_web
unfolding run_block load_job load_new begin_start commit_start may_start new_instance send lookup
    insert handle_process_exit restart_exited backed_off limit_reached request add_duration
    calculate_backoff_duration
waiting_present = refl

Steps-IsConsistent_example : IsConsistent "web" waiting_web
Steps-IsConsistent_example =
    Steps-IsConsistent waiting_system "web" waiting_web all-Steps waiting_present

run_block-Effect_example :
    Leaves (Effect "web" running_system.jobs) (run_block exit_block running_system)
run_block-Effect_example = run_block-Effect exit_block running_system

web-Loaded : Loaded "web" web loaded_system.jobs
unfolding run_block load_job load_new new_instance send lookup insert
web-Loaded = record { instance_of = new_instance web; present = refl; configured = refl }

Steps-Loaded_example : Loaded "web" web running_system.jobs
Steps-Loaded_example = Steps-Loaded "web" web loaded_system running_system run-Steps web-Loaded

unwraps-ne-panics_example :
    ((commit_start open_channels 40 "web" 8 (monitor web 8) running_system).0 ≢ panics)
    × ((abort_start "web" (job_not_found "x") running_system).0 ≢ panics)
    × ((finish_stop open_channels "web" running running_system).0 ≢ panics)
unwraps-ne-panics_example =
    unwraps-ne-panics open_channels 40 8 (monitor web 8) (job_not_found "x") running "web" web
      loaded_system running_system web-Loaded run-Steps

start_job_example :
    StartAnswer linux open_channels 10 20 "web" loaded_system
      (start_job linux open_channels 10 20 "web" loaded_system)
start_job_example = start_job_cases linux open_channels 10 20 "web" loaded_system

stop_job_example :
    StopAnswer linux open_channels "web" running_system
      (stop_job linux open_channels "web" running_system)
stop_job_example = stop_job_cases linux open_channels "web" running_system

handle_process_exit_example :
    ExitAnswer open_channels 30 "web"
      (pos 1)
      none
      running_system
      true
      (handle_process_exit open_channels 30 "web" (pos 1) none true running_system)
handle_process_exit_example =
    handle_process_exit_cases open_channels 30 "web" (pos 1) none running_system true

-- A crash and a restart.
abbrev one_crash : Crash
one_crash = record {
  exit_code = pos 1;
  signal = none;
  seen = 30;
  os = linux;
  begun = 4000000030;
  running_at = 4000000040;
  pid = 7;
}

open_Taking : Taking open_channels "web"
open_Taking = record { events = λ e. refl; requests = λ r. refl }

one_crash-Restarts : Restarts open_channels "web" web one_crash
one_crash-Restarts = record { spawns = refl; in_range = omega arith }

running-RunsUncounted : RunsUncounted open_channels "web" web running_system
running-RunsUncounted = record {
  instance_of = running_web;
  present = running_present;
  is_running = refl;
  uncounted = refl;
  configured = refl;
}

crashes-run_example :
    (t : System) × (crashes open_channels "web" (one_crash ∷ one_crash ∷ []) running_system
      ≡ (done tt, t))
    × RunsUncounted open_channels "web" web t
crashes-run_example =
    crashes-run open_channels "web" web (one_crash ∷ one_crash ∷ []) running_system open_Taking
      (one_crash-Restarts, (one_crash-Restarts, tt)) (omega arith) running-RunsUncounted
