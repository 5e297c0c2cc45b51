-- ===== src/Cli.antt =====
-- src/cli/args.rs: what the command line asks for. clap makes these values from the arguments; the
-- values that it fills in for options that are not given are written as `read_…` functions.
pub mod Options
use nusa_launchd.Shared.{ℕ, String, Bool, Option, none, some, List}
use nusa_launchd.Job.Config.{or_else}

pub data LogLevel : Type 0 where
  error warn info debug trace : LogLevel

unfoldable pub display_log_level : LogLevel → String
display_log_level error = "error"
display_log_level warn = "warn"
display_log_level info = "info"
display_log_level debug = "debug"
display_log_level trace = "trace"

pub data ExampleType : Type 0 where
  simple web_server database cron socket : ExampleType

pub data OutputFormat : Type 0 where
  table json yaml plain : OutputFormat

pub record DaemonOptions : Type 0 where
  pub pid_file : String
  pub state_dir : String
  pub runtime_dir : String
  pub max_jobs : ℕ

-- The options of the daemon that are given.
pub record RawDaemonOptions : Type 0 where
  pub pid_file : Option String
  pub state_dir : Option String
  pub runtime_dir : Option String
  pub max_jobs : Option ℕ

unfoldable pub read_daemon_options : RawDaemonOptions → DaemonOptions
read_daemon_options raw = record {
  pid_file = or_else raw.pid_file "/run/nusalaunchd.pid";
  state_dir = or_else raw.state_dir "/var/lib/nusalaunchd";
  runtime_dir = or_else raw.runtime_dir "/run/nusalaunchd";
  max_jobs = or_else raw.max_jobs 512;
}

-- DaemonOptions::default.
unfoldable pub default_daemon_options : DaemonOptions
default_daemon_options = record {
  pid_file = "/run/nusalaunchd.pid";
  state_dir = "/var/lib/nusalaunchd";
  runtime_dir = "/run/nusalaunchd";
  max_jobs = 512;
}

-- The arguments stand in the order of the fields of each variant.
pub data JobCommands : Type 0 where
  start : List String → Bool → ℕ → JobCommands
  stop : List String → Bool → ℕ → JobCommands
  restart : List String → Bool → JobCommands
  status : Option String → Bool → Bool → JobCommands
  enable : List String → String → Bool → JobCommands
  disable : List String → Bool → JobCommands
  reload : List String → Bool → JobCommands
  logs : String → ℕ → Bool → Option String → Option String → JobCommands
  list : Option String → Bool → Bool → Bool → OutputFormat → JobCommands

pub data SocketCommands : Type 0 where
  status : SocketCommands
  activate : String → SocketCommands
  deactivate : String → SocketCommands

pub data Commands : Type 0 where
  daemon : DaemonOptions → Commands
  job : JobCommands → Commands
  validate : String → Bool → Commands
  example : ExampleType → Option String → Commands
  status : Bool → Bool → OutputFormat → Commands
  socket : SocketCommands → Commands

pub record CliArgs : Type 0 where
  pub command : Option Commands
  pub config_dir : String
  pub log_level : LogLevel
  pub foreground : Bool
  pub test_config : Option String
  pub dry_run : Bool

-- The command and the global options that are given.
pub record RawArgs : Type 0 where
  pub command : Option Commands
  pub config_dir : Option String
  pub log_level : Option LogLevel
  pub foreground : Bool
  pub test_config : Option String
  pub dry_run : Bool

unfoldable pub read_args : RawArgs → CliArgs
read_args raw = record {
  command = raw.command;
  config_dir = or_else raw.config_dir "/etc/nusalaunchd/jobs";
  log_level = or_else raw.log_level info;
  foreground = raw.foreground;
  test_config = raw.test_config;
  dry_run = raw.dry_run;
}

-- The default_value of the options of the commands.
abbrev pub default_start_timeout : ℕ
default_start_timeout = 30

abbrev pub default_stop_timeout : ℕ
default_stop_timeout = 10

abbrev pub default_target : String
default_target = "multi-user"

abbrev pub default_lines : ℕ
default_lines = 50

abbrev pub default_format : OutputFormat
default_format = table
