-- ===== src/Process/Spawner/Laws.antt =====
-- What the spawner's functions do with each answer of the system.
use nusa_launchd.Shared.{
  ℕ, String, not, ◌&&◌, Option, none, some, [], ◌∷◌, ◌++◌, ◌≡◌, refl, arith, ltb, leb,
}
use nusa_launchd.Shared.Int.{ℤ}
use nusa_launchd.Text.{concat}
use nusa_launchd.Util.{NusaError, process, from_string, Result, ok, err}
use nusa_launchd.Job.Config.{JobConfig, RestartPolicy, never, always, on_failure, on_crash}
use nusa_launchd.Job.Supervisor.{should_restart, policy_restarts}
use nusa_launchd.Job.State.{System, JoinHandle}
use nusa_launchd.Task.{done, fails}
use nusa_launchd.Process.Spawner.{Os, build_command, spawn, restart_needed, exit_restarts}

-- The handle of the monitor of a process that was started for a configuration.
abbrev pub monitor : JobConfig → ℕ → JoinHandle
monitor config pid = record { label = config.label; config = config; child = pid }

module _ (os : Os) (config : JobConfig) (s : System) where
  pub spawn-ok :
      (pid : ℕ)
      → os.spawn (build_command os config) ≡ ok (some pid)
      → spawn os config s ≡ (
        done (pid, monitor config pid),
        record s { monitors = s.monitors ++ monitor config pid ∷ [] },
      )
  unfolding spawn
  spawn-ok pid e = rw e

-- The error of a spawn that the system refused, or that gave a child with no id.
pub data SpawnFails (os : Os) (config : JobConfig) (e : NusaError) : Type 0 where
  refused :
      (m : String)
      → os.spawn (build_command os config) ≡ err m
      → e
        ≡ process (
            from_string
              (concat ("Failed to spawn process '" ∷ config.program.path ∷ "': " ∷ m ∷ [])))
      → SpawnFails os config e
  no_pid :
      os.spawn (build_command os config) ≡ ok none
      → e ≡ process (from_string "Failed to get PID")
      → SpawnFails os config e

pub spawn-fails :
    (os : Os) (config : JobConfig) (e : NusaError) (s : System)
    → SpawnFails os config e
    → spawn os config s ≡ (fails e, s)
unfolding spawn
spawn-fails os config e s (refused m o p) = rw (o, p)
spawn-fails os config e s (no_pid o p) = rw (o, p)

-- What the system can answer to the spawn of a job.
pub data SpawnAnswer (os : Os) (config : JobConfig) : Type 0 where
  runs : (pid : ℕ) → os.spawn (build_command os config) ≡ ok (some pid) → SpawnAnswer os config
  breaks : (e : NusaError) → SpawnFails os config e → SpawnAnswer os config

pub spawn_answer : (os : Os) (config : JobConfig) → SpawnAnswer os config
spawn_answer os config = answer (os.spawn (build_command os config)) refl
  where
    answer :
        (r : Result String (Option ℕ))
        → os.spawn (build_command os config) ≡ r
        → SpawnAnswer os config
    answer (ok (some pid)) e = runs pid e
    answer (ok none) e = breaks _ (no_pid e refl)
    answer (err m) e = breaks _ (refused m e refl)

exit_restarts-policy :
    (p : RestartPolicy) (exit_code : ℤ) (signal : Option ℤ)
    → exit_restarts p exit_code signal ≡ policy_restarts p exit_code signal
unfolding exit_restarts policy_restarts
exit_restarts-policy never e s = refl
exit_restarts-policy always e s = refl
exit_restarts-policy on_failure e s = refl
exit_restarts-policy on_crash e s = refl

-- JobSupervisor::should_restart answers true exactly when monitor_process asks for the restart and
-- the count has not reached the limit, where 0 is no limit: the two matches on the policy agree.
pub should_restart-monitor :
    (config : JobConfig) (exit_code : ℤ) (signal : Option ℤ) (n : ℕ)
    → should_restart config.supervision exit_code signal n
      ≡ restart_needed config exit_code signal
        && not (ltb 0 config.supervision.max_restarts && leb config.supervision.max_restarts n)
unfolding should_restart restart_needed
should_restart-monitor config exit_code signal n =
    ground (arith, exit_restarts-policy config.supervision.restart_policy exit_code signal)
