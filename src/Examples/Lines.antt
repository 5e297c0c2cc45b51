-- ===== src/Examples/Lines.antt =====
-- The log of the events, and the options of a command, on concrete values.
use nusa_launchd.Shared.{◌≡◌, refl, true, none, List, [], ◌∷◌}
use nusa_launchd.Shared.Int.{pos}
use nusa_launchd.Job.State.{JobEvent, job_started, job_exited, job_failed, failed, display_state}
use nusa_launchd.Event.{info, warn, Formats, process_events}
use nusa_launchd.Cli.{Commands, job, stop}
use nusa_launchd.Cli.Options.{accepted_shorts}

abbrev formats : Formats
formats = record { state = display_state; delay = λ d. "1s" }

abbrev events : List JobEvent
events =
    job_started "web" 7 20
    ∷ job_exited "web" (pos 1) none 0
    ∷ job_failed "web" (failed "Exceeded max restarts")
    ∷ []

process_events_test :
    process_events formats events
    ≡ (info, "Starting event processor")
      ∷ (info, "[EVENT] Job started: web [PID: 7]")
      ∷ (info, "[EVENT] Job exited: web with code 1, normally (restarts: 0)")
      ∷ (warn, "[EVENT] Job failed: web with state: failed (Exceeded max restarts)")
      ∷ []
unfolding process_events display_state
process_events_test = refl

abbrev stop_command : Commands
stop_command = job (stop ("web" ∷ []) true 10)

accepted_shorts_test : accepted_shorts stop_command ≡ b'c' ∷ b'l' ∷ b'f' ∷ b't' ∷ b'f' ∷ []
unfolding accepted_shorts
accepted_shorts_test = refl
