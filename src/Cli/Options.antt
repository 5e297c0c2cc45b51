-- ===== src/Cli/Options.antt =====
-- src/cli/args.rs: the option names of each command, as the #[arg] attributes declare them. A global
-- option belongs to every command. clap wants the short names of one command to be distinct, and
-- checks it in a debug build when the command is built.
use nusa_launchd.Shared.{ℕ, String, Option, none, some, List, [], ◌∷◌, ◌++◌}
use nusa_launchd.Cli.{
  JobCommands, start, stop, restart, enable, disable, reload, logs, list, Commands, daemon, job,
  validate, example, socket,
}

-- An option of a command: its short name, if it has one, and its long name.
pub record Flag : Type 0 where
  pub short : Option ℕ
  pub long : String

abbrev flag : ℕ → String → Flag
flag c long = record { short = some c; long = long }

abbrev long_flag : String → Flag
long_flag long = record { short = none; long = long }

unfoldable pub global_flags : List Flag
global_flags =
    flag b'c' "config-dir"
    ∷ flag b'l' "log-level"
    ∷ flag b'f' "foreground"
    ∷ flag b't' "test"
    ∷ long_flag "dry-run"
    ∷ []

unfoldable pub daemon_flags : List Flag
daemon_flags =
    long_flag "pid-file"
    ∷ long_flag "state-dir"
    ∷ long_flag "runtime-dir"
    ∷ long_flag "max-jobs"
    ∷ []

unfoldable pub job_flags : JobCommands → List Flag
job_flags (start labels wait timeout) = flag b'w' "wait" ∷ long_flag "timeout" ∷ []
job_flags (stop labels force timeout) = flag b'f' "force" ∷ long_flag "timeout" ∷ []
job_flags (restart labels skip_if_stopped) = long_flag "skip-if-stopped" ∷ []
job_flags (JobCommands.status label show_config show_tree) =
    flag b'c' "config" ∷ flag b't' "tree" ∷ []
job_flags (enable labels target now) = flag b't' "target" ∷ flag b'n' "now" ∷ []
job_flags (disable labels stopped) = flag b's' "stop" ∷ []
job_flags (reload labels restarted) = flag b'r' "restart" ∷ []
job_flags (logs label lines follow since until) =
    flag b'n' "lines" ∷ flag b'f' "follow" ∷ long_flag "since" ∷ long_flag "until" ∷ []
job_flags (list state_filter loaded_only running_only failed_only output_format) =
    flag b's' "state"
    ∷ long_flag "loaded"
    ∷ long_flag "running"
    ∷ long_flag "failed"
    ∷ flag b'o' "output"
    ∷ []

unfoldable pub command_flags : Commands → List Flag
unfolding daemon_flags job_flags
command_flags (daemon daemon_opts) = daemon_flags
command_flags (job job_command) = job_flags job_command
command_flags (validate path strict) = flag b's' "strict" ∷ []
command_flags (example example_type output) = flag b'o' "output" ∷ []
command_flags (Commands.status detailed watch format) =
    flag b'd' "detailed" ∷ flag b'w' "watch" ∷ flag b'f' "format" ∷ []
command_flags (socket socket_command) = []

-- The short names that a command takes.
unfoldable pub shorts : List Flag → List ℕ
shorts [] = []
shorts (f ∷ fs) = elim f.short [ none ↦ shorts fs | some c ↦ c ∷ shorts fs ]

unfoldable pub accepted_shorts : Commands → List ℕ
unfolding shorts global_flags command_flags
accepted_shorts c = shorts (global_flags ++ command_flags c)
