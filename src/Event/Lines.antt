-- ===== src/Event/Lines.antt =====
-- What process_events logs.
use Prim.Native.String.{◌++◌ as append}
use nusa_launchd.Shared.{◌≡◌, refl, String, Bool, true, false, List, [], ◌∷◌, if◌then◌else◌}
use nusa_launchd.Job.State.{
  JobEvent, job_loaded, job_started, job_stopped, job_exited, job_failed, job_restart_scheduled,
  job_ready_for_restart,
}
use nusa_launchd.Event.{Level, warn, info, Formats, logged, event_loop, process_events}

-- The job that an event is about.
abbrev pub event_label : JobEvent → String
event_label (job_loaded label) = label
event_label (job_started label pid started_at) = label
event_label (job_stopped label previous_state) = label
event_label (job_exited label exit_code signal restart_count) = label
event_label (job_failed label state) = label
event_label (job_restart_scheduled label delay attempt) = label
event_label (job_ready_for_restart label) = label

abbrev pub is_failure : JobEvent → Bool
is_failure (job_failed label state) = true
is_failure _ = false

-- A line that names the job of an event, and warns if the event is a failure.
pub record Reports (event : JobEvent) (line : Level × String) : Type 0 where
  pub before : String
  pub after : String
  pub text : line.1 ≡ append before (append (event_label event) after)
  pub level : line.0 ≡ (if is_failure event then warn else info)

-- One line for each event, in the order of the events.
abbrev pub ReportsAll : List JobEvent → List (Level × String) → Type 0
ReportsAll [] [] = Unit
ReportsAll [] (line ∷ lines) = ⊥
ReportsAll (event ∷ events) [] = ⊥
ReportsAll (event ∷ events) (line ∷ lines) = Reports event line × ReportsAll events lines

logged-Reports : (f : Formats) (event : JobEvent) → Reports event (logged f event)
unfolding logged
logged-Reports f (job_loaded label) = record { before = _; after = _; text = refl; level = refl }
logged-Reports f (job_started label pid started_at) = record {
  before = _;
  after = _;
  text = refl;
  level = refl;
}
logged-Reports f (job_stopped label previous_state) = record {
  before = _;
  after = _;
  text = refl;
  level = refl;
}
logged-Reports f (job_exited label exit_code signal restart_count) = record {
  before = _;
  after = _;
  text = refl;
  level = refl;
}
logged-Reports f (job_failed label state) = record {
  before = _;
  after = _;
  text = refl;
  level = refl;
}
logged-Reports f (job_restart_scheduled label delay attempt) = record {
  before = _;
  after = _;
  text = refl;
  level = refl;
}
logged-Reports f (job_ready_for_restart label) = record {
  before = _;
  after = _;
  text = refl;
  level = refl;
}

event_loop-ReportsAll :
    (f : Formats) (events : List JobEvent) → ReportsAll events (event_loop f events)
unfolding event_loop
event_loop-ReportsAll f [] = tt
event_loop-ReportsAll f (event ∷ events) = (logged-Reports f event, event_loop-ReportsAll f events)

-- After its first line, process_events logs one line for each event, in the order of the events: the
-- line has the label of the event's job in its text, and is a warning exactly if the event is a
-- failure.
pub process_events-ReportsAll :
    (f : Formats) (events : List JobEvent)
    → (lines : List (Level × String)) × (process_events f events
        ≡ (info, "Starting event processor") ∷ lines)
      × ReportsAll events lines
unfolding process_events
process_events-ReportsAll f events = (event_loop f events, refl, event_loop-ReportsAll f events)
