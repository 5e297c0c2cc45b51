-- ===== src/Process/Spawner/Commands.antt =====
-- The command that the spawner builds for a job.
use mathlib.Core.List.{append-nil, append_assoc}
use nusa_launchd.Shared.{
  String, Option, none, some, List, [], ◌∷◌, ◌++◌, map, ◌≡◌, refl, ap, Bool-cases, inl, inr,
  if◌then◌else◌,
}
use nusa_launchd.Job.Config.{JobConfig, EnvironmentVar, get_env_vars}
use nusa_launchd.Process.Spawner.{
  Os, Command, inherit, null, piped, build_command, set_environment, set_directory, set_arguments,
}

abbrev variable : EnvironmentVar → String × String
variable env = (env.key, env.value)

set_environment_lem :
    (es : List EnvironmentVar) (c : Command)
    → set_environment es c ≡ record c { env = c.env ++ map variable es }
unfolding set_environment
set_environment_lem [] c = rw append-nil
set_environment_lem (e ∷ es) c =
    rw (set_environment_lem es (record c { env = c.env ++ variable e ∷ [] }), append_assoc)

set_arguments_lem :
    (args : List String) (c : Command) → set_arguments args c ≡ record c { args = c.args ++ args }
unfolding set_arguments
set_arguments_lem [] c = rw append-nil
set_arguments_lem (a ∷ args) c = refl

-- The directory that the command runs in: `none` is the program's own.
abbrev pub directory : Os → Option String → Option String
directory os none = none
directory os (some dir) = if os.exists dir then some dir else none

set_directory_lem :
    (os : Os) (d : Option String) (c : Command)
    → c.current_dir ≡ none
    → set_directory os d c ≡ record c { current_dir = directory os d }
unfolding set_directory
set_directory_lem os none c e = ap (λ d. record c { current_dir = d }) e
set_directory_lem os (some dir) c e = elim (Bool-cases (os.exists dir)) [
  | inl x ↦ rw x
  | inr x ↦ rw x (ap (λ d. record c { current_dir = d }) e)
]

-- The command runs the configured program with exactly the configured arguments and, in their
-- order, the variables of JobConfig::get_env_vars; in the configured directory if it exists, and
-- else in the program's own; with no standard input, and with its outputs piped.
pub build_command_lem :
    (os : Os) (config : JobConfig)
    → build_command os config ≡ record {
      program = config.program.path;
      args = config.program.arguments;
      env = get_env_vars config;
      current_dir = directory os config.working_directory;
      stdin = null;
      stdout = piped;
      stderr = piped;
    }
unfolding build_command get_env_vars
build_command_lem os config =
    let c : Command = record {
      program = config.program.path;
      args = config.program.arguments;
      env = get_env_vars config;
      current_dir = none;
      stdin = inherit;
      stdout = inherit;
      stderr = inherit;
    } in
    rw (
      set_arguments_lem config.program.arguments,
      set_environment_lem config.environment,
      set_directory_lem os config.working_directory c refl,
    )
