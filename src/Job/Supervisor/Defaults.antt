-- ===== src/Job/Supervisor/Defaults.antt =====
-- How a document without supervision settings is supervised.
use nusa_launchd.Shared.{ℕ, ◌<◌, ◌≡◌, refl, ◌≢◌, true, false, Option, none, some, inr}
use nusa_launchd.Shared.Int.{ℤ, pos}
use nusa_launchd.Job.Config.{RawSupervision, read_supervision}
use nusa_launchd.Job.Supervisor.{should_restart}
use nusa_launchd.Job.Supervisor.Policy.{should_restart_iff}

-- A `[supervision]` table with no keys.
abbrev pub empty_table : RawSupervision
empty_table = record {
  keep_alive = none;
  restart_policy = none;
  restart_delay_sec = none;
  max_restarts = none;
}

-- After an exit with a code other than 0 and fewer than five restarts, a job whose document has an
-- empty `[supervision]` table is restarted, and one whose document has no such table never is.
pub should_restart-read_supervision :
    (exit_code : ℤ) (signal : Option ℤ) (n : ℕ)
    → exit_code ≢ pos 0
    → n < 5
    → (should_restart (read_supervision (some empty_table)) exit_code signal n ≡ true)
      × (should_restart (read_supervision none) exit_code signal n ≡ false)
unfolding read_supervision should_restart
should_restart-read_supervision exit_code signal n h l = (
  (should_restart_iff (read_supervision (some empty_table)) exit_code signal n).1
      (record { kept_alive = refl; under_limit = inr l; wanted = h }),
  refl,
)
