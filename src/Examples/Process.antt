-- ===== src/Examples/Process.antt =====
-- The theorems on the spawner, at one job and two systems.
use nusa_launchd.Shared.{String, ◌≡◌, refl, false, none, some, ◌++◌}
use nusa_launchd.Shared.Int.{pos}
use nusa_launchd.Util.{Result, ok, err}
use nusa_launchd.Job.State.{Signal, sigterm, sigkill, empty_system}
use nusa_launchd.Task.{done}
use nusa_launchd.Process.Spawner.{Os, exits, monitor_process, kill_process}
use nusa_launchd.Process.Spawner.Laws.{monitor}
use nusa_launchd.Process.Spawner.Signals.{
  KillAnswer, kill_process_cases, exit_events, monitor_process_lem,
}
use nusa_launchd.Examples.Data.{web, linux, open_channels}

monitor_process_lem_example :
    monitor_process open_channels (monitor web 7) (exits (some (pos 1)) none) empty_system ≡ (
      done tt,
      record empty_system {
        events = empty_system.events ++ exit_events (monitor web 7) (some (pos 1)) none;
      },
    )
monitor_process_lem_example =
    monitor_process_lem open_channels (monitor web 7) (some (pos 1)) none empty_system (λ e. refl)

-- A system that refuses SIGTERM.
abbrev refuse_sigterm : Signal → Result String Unit
refuse_sigterm sigterm = err "EPERM"
refuse_sigterm sigkill = ok tt

abbrev stubborn : Os
stubborn = record linux { kill = λ pid sig. refuse_sigterm sig }

abbrev show : Result String Unit → String
show (ok u) = "ok"
show (err m) = m

kill_process_example :
    KillAnswer stubborn show 7 empty_system false (kill_process stubborn show 7 false empty_system)
kill_process_example = kill_process_cases stubborn show 7 empty_system false
