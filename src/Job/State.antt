-- ===== src/Job/State.antt =====
-- The data of src/job/manager.rs that the other parts share, and the state that its tasks act on.
use nusa_launchd.Shared.{ℕ, String, Option, List, [], ◌∷◌}
use nusa_launchd.Shared.Int.{ℤ}
use nusa_launchd.Text.{concat}
use nusa_launchd.Job.Config.{JobConfig}

pub data JobState : Type 0 where
  stopped starting running stopping restarting backoff : JobState
  failed : String → JobState

unfoldable pub display_state : JobState → String
display_state stopped = "stopped"
display_state starting = "starting"
display_state running = "running"
display_state stopping = "stopping"
display_state restarting = "restarting"
display_state (failed reason) = concat ("failed (" ∷ reason ∷ ")" ∷ [])
display_state backoff = "backoff"

-- The handle of a monitor task: what the task was started with.
pub record JoinHandle : Type 0 where
  pub label : String
  pub config : JobConfig
  pub child : ℕ

pub record JobInstance : Type 0 where
  pub config : JobConfig
  pub state : JobState
  pub pid : Option ℕ
  pub start_time : Option ℕ
  pub restart_count : ℕ
  pub last_exit_code : Option ℤ
  pub last_exit_signal : Option ℤ
  pub backoff_until : Option ℕ
  pub process_handle : Option JoinHandle

pub record JobStatus : Type 0 where
  pub label : String
  pub state : JobState
  pub pid : Option ℕ
  pub restart_count : ℕ
  pub uptime : Option ℕ
  pub exit_code : Option ℤ
  pub exit_signal : Option ℤ
  pub config : JobConfig

pub data JobEvent : Type 0 where
  job_loaded : String → JobEvent
  job_started : String → ℕ → ℕ → JobEvent
  job_stopped : String → JobState → JobEvent
  job_exited : String → ℤ → Option ℤ → ℕ → JobEvent
  job_failed : String → JobState → JobEvent
  job_restart_scheduled : String → ℕ → ℕ → JobEvent
  job_ready_for_restart : String → JobEvent

pub record RestartRequest : Type 0 where
  pub label : String
  pub delay : ℕ

pub data Signal : Type 0 where
  sigterm sigkill : Signal

-- The jobs of the manager, and what its tasks have handed over so far, oldest first: events and
-- restart requests to the channels, signals to the system, tasks to the runtime. `start_tasks` are
-- the spawned calls of start_job, `monitors` the spawned calls of monitor_process.
pub record System : Type 0 where
  pub jobs : List (String × JobInstance)
  pub events : List JobEvent
  pub requests : List RestartRequest
  pub signals : List (ℕ × Signal)
  pub start_tasks : List String
  pub monitors : List JoinHandle

abbrev pub empty_system : System
empty_system = record {
  jobs = [];
  events = [];
  requests = [];
  signals = [];
  start_tasks = [];
  monitors = [];
}
