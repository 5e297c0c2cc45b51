-- ===== src/Examples/Supervision.antt =====
-- The theorems on the restart policy and the backoff, at one configuration.
use nusa_launchd.Shared.{
  ◌*◌, ◌^◌, ◌≡◌, refl, ◌↔◌, ◌&&◌, not, min, true, none, some, ◌≢◌, arith, ltb, leb,
}
use nusa_launchd.Shared.Int.{pos}
use nusa_launchd.Time.{from_secs}
use nusa_launchd.Job.Config.{SupervisionConfig}
use nusa_launchd.Job.Supervisor.{should_restart, calculate_backoff}
use nusa_launchd.Job.Supervisor.Policy.{
  WantsRestart, should_restart_iff, calculate_backoff_lem, calculate_backoff_wraps,
}
use nusa_launchd.Job.State.{JobInstance, restarting}
use nusa_launchd.Job.Manager.{calculate_backoff_duration}
use nusa_launchd.Job.Manager.Backoff.{calculate_backoff_duration-doubles}
use nusa_launchd.Process.Spawner.{restart_needed}
use nusa_launchd.Process.Spawner.Laws.{should_restart-monitor}
use nusa_launchd.Examples.Data.{web, web_supervision}

should_restart_iff_example :
    (should_restart web_supervision (pos 1) none 4 ≡ true)
    ↔ WantsRestart web_supervision (pos 1) none 4
should_restart_iff_example = should_restart_iff web_supervision (pos 1) none 4

should_restart-monitor_example :
    should_restart web_supervision (pos 1) none 5
    ≡ restart_needed web (pos 1) none && not (ltb 0 5 && leb 5 5)
should_restart-monitor_example = should_restart-monitor web (pos 1) none 5

calculate_backoff_lem_example :
    calculate_backoff web_supervision 3 ≡ from_secs (min (2 * 2 ^ min 3 6) 300)
calculate_backoff_lem_example = calculate_backoff_lem web_supervision 3 (omega arith)

calculate_backoff_test : calculate_backoff web_supervision 3 ≡ from_secs 16
unfolding calculate_backoff
calculate_backoff_test = refl

five_ne_zero : pos 5 ≢ pos 0
five_ne_zero p = cc

-- The job `web` after its first crash is counted.
abbrev crashed : JobInstance
crashed = record {
  config = web;
  state = restarting;
  pid = none;
  start_time = some 20;
  restart_count = 1;
  last_exit_code = some (pos 1);
  last_exit_signal = none;
  backoff_until = none;
  process_handle = none;
}

calculate_backoff_duration-doubles_example :
    calculate_backoff_duration crashed ≡ 2 * calculate_backoff web_supervision 0
calculate_backoff_duration-doubles_example =
    calculate_backoff_duration-doubles crashed 0 refl (omega arith) (omega arith)

-- A delay of 3 * 2 ^ 58 seconds.
abbrev endless : SupervisionConfig
endless = record web_supervision { restart_delay_sec = 3 * 2 ^ 58 }

calculate_backoff_wraps_example : calculate_backoff endless 6 ≡ 0
calculate_backoff_wraps_example = calculate_backoff_wraps endless 3 6 refl (omega arith)
