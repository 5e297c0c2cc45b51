-- ===== src/Process/Spawner.antt =====
-- src/process/spawner.rs: the command of a job, its process and its monitor task.
pub mod Laws
pub mod Commands
pub mod Signals
use nusa_launchd.Shared.{
  ℕ, suc, String, Bool, true, false, not, Option, none, some, List, [], ◌∷◌, ◌++◌, if◌then◌else◌,
  is_some,
}
use nusa_launchd.Shared.Int.{ℤ, negsuc, is_zero}
use nusa_launchd.Text.{concat}
use nusa_launchd.Util.{NusaError, process, from_string, Result, ok, err}
use nusa_launchd.Job.Config.{
  JobConfig, EnvironmentVar, RestartPolicy, never, always, on_failure, on_crash,
}
use nusa_launchd.Job.State.{
  System, JobEvent, job_exited, job_failed, job_ready_for_restart, JobState, failed, JoinHandle,
  Signal, sigterm, sigkill,
}
use nusa_launchd.Task.{Task, ◌>>=◌, ◌>>◌, pure, fail, modify, lift, ignore, Channels, Outcome, done}
use nusa_launchd.Event.{send}

pub data Stdio : Type 0 where
  inherit null piped : Stdio

-- What the calls on tokio's Command have asked for, each list in the order of the calls.
pub record Command : Type 0 where
  pub program : String
  pub args : List String
  pub env : List (String × String)
  pub current_dir : Option String
  pub stdin : Stdio
  pub stdout : Stdio
  pub stderr : Stdio

-- The answers of the operating system and of tokio at the time of one call. A failure carries the
-- Display of its error; a child has an id unless it was already waited for.
pub record Os : Type 0 where
  pub exists : String → Bool
  pub spawn : Command → Result String (Option ℕ)
  pub kill : ℕ → Signal → Result String Unit
  pub ends_in_time : JoinHandle → Bool

abbrev command_new : String → Command
command_new path = record {
  program = path;
  args = [];
  env = [];
  current_dir = none;
  stdin = inherit;
  stdout = inherit;
  stderr = inherit;
}

set_environment : List EnvironmentVar → Command → Command
set_environment [] c = c
set_environment (e ∷ rest) c =
    set_environment rest (record c { env = c.env ++ (e.key, e.value) ∷ [] })

set_directory : Os → Option String → Command → Command
set_directory os none c = c
set_directory os (some dir) c = if os.exists dir then record c { current_dir = some dir } else c

set_arguments : List String → Command → Command
set_arguments [] c = c
set_arguments (a ∷ rest) c = record c { args = c.args ++ a ∷ rest }

-- The command that `spawn` builds before it starts the process.
unfoldable pub build_command : Os → JobConfig → Command
unfolding set_environment set_directory set_arguments
build_command os config =
    let c₀ = command_new config.program.path in
    let c₁ = set_arguments config.program.arguments c₀ in
    let c₂ = set_environment config.environment c₁ in
    let c₃ = set_directory os config.working_directory c₂ in
    record c₃ { stdin = null; stdout = piped; stderr = piped }

-- The source makes `NusaError::Process` from a String; it is read with ProcessError's From<String>.
process_error : List String → NusaError
process_error pieces = process (from_string (concat pieces))

child_id : Option ℕ → Result NusaError ℕ
unfolding process_error from_string
child_id none = err (process_error ("Failed to get PID" ∷ []))
child_id (some pid) = ok pid

spawned : JobConfig → Result String (Option ℕ) → Result NusaError ℕ
unfolding child_id process_error from_string
spawned config (err e) =
    err (process_error ("Failed to spawn process '" ∷ config.program.path ∷ "': " ∷ e ∷ []))
spawned config (ok id) = child_id id

unfoldable pub spawn : Os → JobConfig → Task (ℕ × JoinHandle)
unfolding spawned build_command
spawn os config = do
  pid ← lift (spawned config (os.spawn (build_command os config)))
  let handle : JoinHandle = record { label = config.label; config = config; child = pid }
  modify (λ s. record s { monitors = s.monitors ++ handle ∷ [] })
  pure (pid, handle)

-- How a child's wait ends: with the code and the signal of its status, or with an error.
pub data Waited : Type 0 where
  exits : Option ℤ → Option ℤ → Waited
  wait_fails : String → Waited

abbrev pub exit_code_or : Option ℤ → ℤ
exit_code_or none = negsuc 0
exit_code_or (some c) = c

-- The match of monitor_process on the restart policy.
exit_restarts : RestartPolicy → ℤ → Option ℤ → Bool
exit_restarts always exit_code signal = true
exit_restarts never exit_code signal = false
exit_restarts on_failure exit_code signal = not (is_zero exit_code)
exit_restarts on_crash exit_code signal = is_some signal

unfoldable pub restart_needed : JobConfig → ℤ → Option ℤ → Bool
unfolding exit_restarts
restart_needed config exit_code signal =
    if config.supervision.keep_alive
    then exit_restarts config.supervision.restart_policy exit_code signal
    else false

unfoldable pub monitor_process : Channels → JoinHandle → Waited → Task Unit
unfolding send restart_needed
monitor_process ch h (exits code signal) = do
  let exit_code = exit_code_or code
  ignore (send ch (job_exited h.label exit_code signal 0))
  if restart_needed h.config exit_code signal
      then ignore (send ch (job_ready_for_restart h.label))
      else pure tt
monitor_process ch h (wait_fails e) =
    ignore (send ch (job_failed h.label (failed (concat ("Monitor error: " ∷ e ∷ [])))))

-- nix's kill: the call is recorded, and answers.
unfoldable pub kill : Os → ℕ → Signal → Task (Result String Unit)
kill os pid sig = do
  modify (λ s. record s { signals = s.signals ++ (pid, sig) ∷ [] })
  pure (os.kill pid sig)

forced : Result String Unit → Task Unit
unfolding process_error from_string
forced (ok _) = pure tt
forced (err e) = fail (process_error ("Failed to send SIGKILL: " ∷ e ∷ []))

escalated : Os → (Result String Unit → String) → ℕ → Result String Unit → Task Unit
unfolding kill process_error from_string
escalated os show pid (ok _) = pure tt
escalated os show pid (err e) = do
  second ← kill os pid sigkill
  fail (process_error ("Failed to kill process: " ∷ show second ∷ []))

-- The last map_err formats the result of the second kill, which has no Display: `show` stands for it.
unfoldable pub kill_process : Os → (Result String Unit → String) → ℕ → Bool → Task Unit
unfolding kill forced escalated
kill_process os show pid true = do r ← kill os pid sigkill; forced r
kill_process os show pid false = do r ← kill os pid sigterm; escalated os show pid r
