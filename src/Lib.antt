-- ===== src/Lib.antt =====
-- NusaLaunchd, a launchd-like service manager: the configuration of jobs, their supervision and
-- the state machine that the daemon runs them by.
--
-- The program reads job files (src/job/config.rs) and checks them (src/job/validator.rs). The
-- manager (src/job/manager.rs) keeps one instance for each loaded job in a map behind a lock, starts
-- and stops its process through the spawner (src/process/spawner.rs), sends events through the
-- dispatcher (src/event/dispatcher.rs) and hands restarts to a task of its own through a channel.
-- A monitor task waits for each process and sends events when it ends. The supervisor
-- (src/job/supervisor.rs) has a restart policy, a backoff and a queue of restarts of its own. The
-- program (src/main.rs) runs the command that its arguments ask for (src/cli/args.rs): the daemon
-- loads a directory of job files into a new manager and then waits, other commands check a file or
-- write an example, and some are not written yet.
--
-- The files:
--   Shared, Text, Dict, Time  the helpers: tests on numbers and lists, texts (str::trim, contains),
--                  a map as an association list, durations, instants and machine integers
--   Util           src/util/erorr.rs: NusaError, ConfigError, ProcessError and their Display
--   Job/Config     src/job/config.rs: JobConfig::from_file, validate, get_env_vars, serde defaults
--   Job/Validator  src/job/validator.rs: ConfigValidator::validate and validate_file
--   Job/State      src/job/manager.rs: JobState, JobInstance, JobStatus, JobEvent, RestartRequest;
--                  System is the map of a JobManager with all that it has handed over so far
--   Task           a computation on the System that goes on, returns an error, waits or panics
--   Event          src/event/dispatcher.rs: EventDispatcher::send and process_events
--   Process/Spawner  src/process/spawner.rs: spawn, monitor_process, kill_process
--   Process/Monitor  src/process/monitor.rs: monitor_with_timeout and is_process_running
--   Job/Supervisor src/job/supervisor.rs: should_restart, calculate_backoff, schedule_restart,
--                  get_ready_jobs, cancel_restart, is_in_backoff, start_restart_processor; Locks has
--                  the blocks under its two locks in any order
--   Job/Manager    src/job/manager.rs: load_job (Loads), start_job (Starts), stop_job (Stops),
--                  restart_job, handle_process_exit and handle_restart_request (Exits),
--                  get_job_status and list_jobs (Queries), the receive loop of
--                  start_background_tasks (Delay), the starts that load_job spawns (Boot,
--                  each with a system of its own), the blocks that other tasks run (Others), the
--                  restart channel beside the lock of the jobs (Backlog)
--   Cli            src/cli/args.rs: the arguments, their defaults and (Options) their option names
--   Main           src/main.rs: main; load_jobs_from_directory (Directory), validate_config
--                  (Validation), generate_example (Example), run_daemon, show_daemon_status,
--                  setup_signal_handlers and the match of init_logging (Daemon)
--   Nusaload       tools/nusaload/src/main.rs: the control tool
--   Examples, Job/Manager/Examples, Job/Manager/Calls  runs on concrete data
-- The other children of a component hold its theorems and are named for what they are about.
--
-- How the code is read:
--   * A handler of the manager releases the lock while it spawns or ends a process. Each block
--     between taking the lock and releasing it is a definition of its own (begin_start and
--     commit_start or abort_start for start_job, begin_stop and finish_stop for stop_job). The
--     handler runs its blocks one after the other; Job/Manager/Blocks has any blocks in any order.
--   * What the operating system, tokio and the toml crate answer is a parameter: Os (spawn, kill,
--     whether a process ends in time), Channels (a send is taken, finds the receiver gone, or waits
--     at a full channel) and Files. Every reading of the clock is an argument.
--   * `?` is the error of a Task; unwrap and an Instant out of range are a panic, which ends the
--     program (Cargo.toml has panic = "abort"). Logging changes nothing and is left out, but for the
--     lines of process_events and of start_restart_processor, whose work they are.
--   * Numbers are natural numbers. A u32 or u64 wraps as in a release build, by an explicit
--     remainder. A duration and an instant count nanoseconds; an instant holds its seconds in an
--     i64, as on Linux. A process id is below 2 ^ 31, so the code's cast to i32 keeps it.
--   * A path is a text. The HashMap is an association list with one entry for each label; nothing
--     depends on its order, but list_jobs gives its entries in the order of the list.
--   * A field that serde fills in is an Option in the raw document (RawJob) and is filled in by
--     read_job. A missing [supervision] table gives the derived Default.
--   * The while loop of get_ready_jobs runs on fuel: one more than the length of the queue, which is
--     always enough, since each round takes a job out or moves the index on.
--   * NusaError::Process is given a String in src/process/spawner.rs where it holds a ProcessError;
--     the model converts it by ProcessError's From<String>. The Display that the code asks of a
--     Result in kill_process does not exist, and is the parameter `show`.
--   * What main.rs asks of the file system is Host. What the other tasks do to the manager, the
--     spawned starts among them, is a schedule of blocks in any order (Job/Manager/Others): Env has
--     one up to the time when main goes on after the directory is loaded and one for the wait in
--     the foreground. A block in it that waits with the lock is taken to give it back; Backlog says
--     when it does not. The loading itself is described without them: a start that runs during it
--     touches only a job that the rest of the loading leaves alone.
--   * A polling task is described by the ticks that it has seen, the event processor by the events
--     up to the closing of its channel, and the signal handler by the signals that have come.
--   * The sends of events in the model of the restart channel (Backlog) end or wait as Channels
--     says; a theorem there that needs them to end has that as a hypothesis.
--
-- Not modelled: the parser that clap derives, the output of the tracing subscriber (process_events
-- gives the level and the text of each line; other log lines are left out). The other files are
-- module declarations, tests and build files.
pub mod Shared
pub mod Text
pub mod Dict
pub mod Time
pub mod Util
pub mod Job
pub mod Task
pub mod Event
pub mod Process
pub mod Cli
pub mod Main
pub mod Nusaload
pub mod Examples
