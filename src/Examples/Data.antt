-- ===== src/Examples/Data.antt =====
-- A job, its document, the answers of the system, and a manager in several states.
use nusa_launchd.Shared.{ℕ, String, true, none, some, [], ◌∷◌}
use nusa_launchd.Shared.Int.{pos}
use nusa_launchd.Util.{ok}
use nusa_launchd.Job.Config.{on_failure, SupervisionConfig, JobConfig, RawJob, Files}
use nusa_launchd.Job.State.{System, empty_system}
use nusa_launchd.Task.{Channels, taken}
use nusa_launchd.Process.Spawner.{Os}
use nusa_launchd.Process.Spawner.Laws.{monitor}
use nusa_launchd.Job.Manager.Blocks.{Block, loads, begins_start, commits_start, exits, run_block}
use nusa_launchd.Job.Supervisor.{RestartJob, BackoffInfo, JobSupervisor}

abbrev pub web_supervision : SupervisionConfig
web_supervision = record {
  keep_alive = true;
  restart_policy = on_failure;
  restart_delay_sec = 2;
  max_restarts = 5;
}

abbrev pub web : JobConfig
web = record {
  label = "web";
  description = none;
  program = record { path = "/bin/web"; arguments = "-v" ∷ [] };
  supervision = web_supervision;
  environment = record { key = "PORT"; value = "80" } ∷ [];
  working_directory = some "/srv";
}

abbrev pub web_document : RawJob
web_document = record {
  label = "web";
  description = none;
  program = record { path = "/bin/web"; arguments = some ("-v" ∷ []) };
  supervision = some (record {
    keep_alive = none;
    restart_policy = none;
    restart_delay_sec = some 2;
    max_restarts = none;
  });
  environment = some (record { key = "PORT"; value = "80" } ∷ []);
  working_directory = some "/srv";
}

-- One file, with the document.
abbrev pub disk : Files
disk = record {
  exists = λ path. true;
  read_to_string = λ path. ok "toml";
  from_str = λ content. ok web_document;
}

-- Channels that take everything, and a system that starts process 7 and whose processes end in time.
abbrev pub open_channels : Channels
open_channels = record {
  to_event = λ e. taken;
  to_request = λ r. taken;
  send_error = "channel closed";
}

abbrev pub linux : Os
linux = record {
  exists = λ path. true;
  spawn = λ c. ok (some 7);
  kill = λ pid sig. ok tt;
  ends_in_time = λ h. true;
}

abbrev pub load_block : Block
load_block = loads open_channels web

abbrev pub begin_block : Block
begin_block = begins_start 10 "web"

abbrev pub commit_block : Block
commit_block = commits_start open_channels 20 "web" 7 (monitor web 7)

abbrev pub exit_block : Block
exit_block = exits open_channels 30 "web" (pos 1) none true

abbrev pub loaded_system : System
loaded_system = (run_block load_block empty_system).1

abbrev pub starting_system : System
starting_system = (run_block begin_block loaded_system).1

abbrev pub running_system : System
running_system = (run_block commit_block starting_system).1

abbrev pub waiting_system : System
waiting_system = (run_block exit_block running_system).1

-- A queue with two restarts of one job and one of another.
abbrev pub restart_at : String → ℕ → RestartJob
restart_at label time = record { label = label; scheduled_at = time; attempt = 1 }

abbrev pub waiting_for : ℕ → BackoffInfo
waiting_for time = record { backoff_until = time; attempt = 1 }

abbrev pub busy : JobSupervisor
busy = record {
  restart_queue = restart_at "web" 10 ∷ restart_at "db" 20 ∷ restart_at "web" 30 ∷ [];
  backoff_tracker = ("web", waiting_for 30) ∷ ("db", waiting_for 20) ∷ [];
}
