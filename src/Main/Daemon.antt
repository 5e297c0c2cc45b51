-- ===== src/Main/Daemon.antt =====
-- src/main.rs: run_daemon, show_daemon_status, and the commands that are not written yet.
use text.Mathlib.Text.{◌==◌ as str_eq}
use nusa_launchd.Shared.{ℕ, ◌==◌, ◌||◌, String, Bool, List, [], ◌∷◌, length, if◌then◌else◌}
use nusa_launchd.Text.{concat, decimal}
use nusa_launchd.Util.{system, Result, ok, err}
use nusa_launchd.Job.State.{
  JobState, running, stopped, failed, JobStatus, display_state, empty_system,
}
use nusa_launchd.Job.Manager.{list_jobs}
use nusa_launchd.Job.Manager.Blocks.{Block}
use nusa_launchd.Job.Manager.Others.{run_others}
use nusa_launchd.Task.{Channels, done}
use nusa_launchd.Event.{Level, error, warn, info, debug, trace}
use nusa_launchd.Cli.{CliArgs, DaemonOptions, JobCommands, SocketCommands, OutputFormat}
use nusa_launchd.Main.Program.{
  Run, ◌>>=◌, ◌>>◌, pure, fail, stay, print_line, spawn_task, on_system, event_processor,
  signal_handler,
}
use nusa_launchd.Main.Directory.{Host, load_jobs_from_directory}

-- What a run of the program meets: the file system, the channels, the clock when the status is
-- shown, what signal_hook answers, and whether the event processor stops or Ctrl+C comes. The other
-- tasks, the spawned starts among them, run `after_load` up to the time when main goes on after the
-- directory is loaded, and `during_wait` while main waits in the foreground. A start that runs while
-- the directory is still being loaded touches a job that the rest of the loading leaves alone, so its
-- blocks stand in `after_load`.
pub record Env : Type 0 where
  pub host : Host
  pub channels : Channels
  pub now : ℕ
  pub signals : Result String Unit
  pub ends : Bool
  pub after_load : List Block
  pub during_wait : List Block

unfoldable pub state_str : JobState → String
state_str running = "✓"
state_str stopped = "✗"
state_str (failed reason) = concat ("⚠ (" ∷ reason ∷ ")" ∷ [])
state_str _ = "?"

unfoldable pub status_line : JobStatus → String
unfolding state_str display_state
status_line job =
    concat
      ("  " ∷ state_str job.state ∷ " " ∷ job.label ∷ " [" ∷ display_state job.state ∷ "]" ∷ [])

unfoldable pub print_jobs : List JobStatus → Run Unit
print_jobs [] = pure tt
print_jobs (job ∷ jobs) = print_line (status_line job) >> print_jobs jobs

unfoldable pub total_line : ℕ → String
unfolding decimal
total_line n = concat ("Total jobs: " ∷ decimal n ∷ [])

unfoldable pub show_daemon_status : ℕ → Run Unit
unfolding print_jobs
show_daemon_status now = do
  jobs ← λ p. (done (list_jobs now p.system), p)
  print_line "NusaLaunchd Daemon Status"
  print_line "========================="
  print_line (total_line (length jobs))
  print_jobs jobs

unfoldable pub setup_signal_handlers : Result String Unit → Run Unit
setup_signal_handlers (err e) = fail (system (concat ("Failed to setup signals: " ∷ e ∷ [])))
setup_signal_handlers (ok u) = spawn_task signal_handler

-- The task of setup_signal_handlers: it reads signals up to the first SIGTERM (15) or SIGINT (2) and
-- then closes the handle. The signals that are left are returned; `[]` also while it waits for more.
unfoldable pub signal_loop : List ℕ → List ℕ
signal_loop [] = []
signal_loop (signal ∷ rest) =
    let later = signal_loop rest in if signal == 15 || signal == 2 then rest else later

-- The select! on the event processor and Ctrl+C. The other tasks go on while it waits.
unfoldable pub keep_running : List Block → Bool → Run Unit
keep_running others ends = do on_system (run_others others); if ends then pure tt else stay

-- JobManager::new. The receiver of the events goes to the event processor.
abbrev pub new_manager : Run Unit
new_manager p = (done tt, record p { system = empty_system })

unfoldable pub run_daemon : Env → CliArgs → DaemonOptions → Run Unit
unfolding load_jobs_from_directory show_daemon_status setup_signal_handlers keep_running
run_daemon env args daemon_opts = do
  new_manager
  spawn_task event_processor
  on_system (load_jobs_from_directory env.host env.channels args.config_dir)
  on_system (run_others env.after_load)
  if args.dry_run
      then show_daemon_status env.now
      else if args.foreground
      then setup_signal_handlers env.signals >> keep_running env.during_wait env.ends
      else pure tt

-- The three commands that do nothing yet.
unfoldable pub handle_job_command : JobCommands → Run Unit
handle_job_command job_command = pure tt

unfoldable pub show_status : Bool → Bool → OutputFormat → Run Unit
show_status detailed watch format = print_line "Status command not fully implemented yet"

unfoldable pub handle_socket_command : SocketCommands → Run Unit
handle_socket_command socket_command = print_line "Socket commands will be implemented in Week 3"

-- The match of init_logging, on the level's name in lower case.
unfoldable pub filter : String → Level
filter name =
    if str_eq name "trace"
    then trace
    else if str_eq name "debug"
    then debug
    else if str_eq name "info"
    then info
    else if str_eq name "warn"
    then warn
    else if str_eq name "error"
    then error
    else info
