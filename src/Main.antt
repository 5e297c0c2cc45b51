-- ===== src/Main.antt =====
-- src/main.rs: the dispatch on the command. The set-up of the logging acts on nothing else.
pub mod Program
mod Directory
pub mod Loads
pub mod Loading
pub mod Validity
pub mod Ends
pub mod Running
pub mod Order
pub mod Boot
mod Example
mod Validation
mod Daemon
unfoldable pub use Directory.*
unfoldable pub use Example.*
unfoldable pub use Validation.*
unfoldable pub use Daemon.*
use nusa_launchd.Shared.{Option, none, some}
use nusa_launchd.Cli.{
  Commands, CliArgs, daemon, job, validate, example, socket, default_daemon_options,
}
use nusa_launchd.Main.Program.{Run}

abbrev dispatch : Env → CliArgs → Option Commands → Run Unit
dispatch env args (some (daemon daemon_opts)) = run_daemon env args daemon_opts
dispatch env args (some (job job_command)) = handle_job_command job_command
dispatch env args (some (validate path strict)) = validate_config env.host path strict
dispatch env args (some (Commands.status detailed watch format)) = show_status detailed watch format
dispatch env args (some (example example_type output)) =
    generate_example env.host example_type output
dispatch env args (some (socket socket_command)) = handle_socket_command socket_command
dispatch env args none = run_daemon env args default_daemon_options

unfoldable pub main : Env → CliArgs → Run Unit
main env args = dispatch env args args.command
