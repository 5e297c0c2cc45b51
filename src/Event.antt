-- ===== src/Event.antt =====
-- src/event/dispatcher.rs: EventDispatcher::send and process_events.
pub mod Lines
use nusa_launchd.Shared.{ℕ, String, Option, none, some, List, [], ◌∷◌, ◌++◌}
use nusa_launchd.Shared.Int.{ℤ}
use nusa_launchd.Text.{concat, decimal}
use nusa_launchd.Util.{system, signed}
use nusa_launchd.Job.State.{
  JobState, JobEvent, job_loaded, job_started, job_stopped, job_exited, job_failed,
  job_restart_scheduled, job_ready_for_restart,
}
use nusa_launchd.Task.{Task, Channels, deliver}

unfoldable pub send : Channels → JobEvent → Task Unit
send ch event =
    deliver (ch.to_event event) (system (concat ("Failed to send event: " ∷ ch.send_error ∷ [])))
      (λ s. record s { events = s.events ++ event ∷ [] })

-- tracing::Level.
pub data Level : Type 0 where
  error warn info debug trace : Level

-- The Debug of a JobState and of a Duration, which the compiler derives and the library has.
pub record Formats : Type 0 where
  pub state : JobState → String
  pub delay : ℕ → String

unfoldable pub signal_info : Option ℤ → String
unfolding signed
signal_info (some s) = concat ("signal " ∷ signed s ∷ [])
signal_info none = "normally"

-- The line that is logged for an event.
unfoldable pub logged : Formats → JobEvent → Level × String
unfolding signal_info decimal signed
logged f (job_loaded label) = (info, concat ("[EVENT] Job loaded: " ∷ label ∷ []))
logged f (job_started label pid started_at) =
    (info, concat ("[EVENT] Job started: " ∷ label ∷ " [PID: " ∷ decimal pid ∷ "]" ∷ []))
logged f (job_stopped label previous_state) =
    (info, concat ("[EVENT] Job stopped: " ∷ label ∷ " (was: " ∷ f.state previous_state ∷ ")" ∷ []))
logged f (job_exited label exit_code signal restart_count) = (
  info,
  concat (
      "[EVENT] Job exited: "
      ∷ label
      ∷ " with code "
      ∷ signed exit_code
      ∷ ", "
      ∷ signal_info signal
      ∷ " (restarts: "
      ∷ decimal restart_count
      ∷ ")"
      ∷ []),
)
logged f (job_failed label state) =
    (warn, concat ("[EVENT] Job failed: " ∷ label ∷ " with state: " ∷ f.state state ∷ []))
logged f (job_restart_scheduled label delay attempt) = (
  info,
  concat (
      "[EVENT] Job restart scheduled: "
      ∷ label
      ∷ " in "
      ∷ f.delay delay
      ∷ " (attempt "
      ∷ decimal attempt
      ∷ ")"
      ∷ []),
)
logged f (job_ready_for_restart label) =
    (info, concat ("[EVENT] Job ready for restart: " ∷ label ∷ []))

-- The receive loop, on the events up to the closing of the channel, with what it logs.
unfoldable pub event_loop : Formats → List JobEvent → List (Level × String)
unfolding logged
event_loop f [] = []
event_loop f (event ∷ events) = logged f event ∷ event_loop f events

unfoldable pub process_events : Formats → List JobEvent → List (Level × String)
unfolding event_loop
process_events f events = (info, "Starting event processor") ∷ event_loop f events
