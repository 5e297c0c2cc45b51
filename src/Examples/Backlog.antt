-- ===== src/Examples/Backlog.antt =====
-- The restart channel with a few requests, and with one too many.
use nusa_launchd.Shared.{String, ℕ, zero, suc, refl, none, List, [], ◌∷◌, arith}
use nusa_launchd.Time.{from_secs}
use nusa_launchd.Job.State.{RestartRequest}
use nusa_launchd.Job.Manager.Backlog.{Backlog, sleeping, Drains}
use nusa_launchd.Examples.Data.{open_channels}
use nusa_launchd.Job.Manager.Backlog.Deadlock.{in_flight-Drains}

abbrev request_of : String → RestartRequest
request_of label = record { label = label; delay = from_secs 2 }

abbrev waiting : Backlog
waiting = record {
  queue = request_of "web" ∷ request_of "db" ∷ [];
  sender = none;
  task = sleeping (request_of "cron");
}

in_flight-Drains_example : Drains open_channels waiting
in_flight-Drains_example = in_flight-Drains open_channels (λ e. refl) waiting (omega arith)

crashes : ℕ → List RestartRequest
crashes zero = []
crashes (suc n) = request_of "web" ∷ crashes n
