-- ===== src/Job/Supervisor/Schedule.antt =====
-- What one call of schedule_restart does.
use nusa_launchd.Shared.{ℕ, ◌+◌, ◌<◌, ◌≡◌, subst, String, some, List, [], ◌∷◌, ◌++◌, arith}
use nusa_launchd.Time.{u32, from_secs, instant_limit, add_duration}
use nusa_launchd.Dict.{insert}
use nusa_launchd.Job.Config.{SupervisionConfig}
use nusa_launchd.Job.Supervisor.{
  RestartJob, BackoffInfo, JobSupervisor, calculate_backoff, schedule_restart,
}
use nusa_launchd.Job.Supervisor.Policy.{calculate_backoff-le}
use nusa_launchd.Job.Supervisor.Queue.{
  IsSorted, insert_after, sort_by_time-push, sort_by_time-IsSorted,
}

pub insert_after-IsSorted :
    (j : RestartJob) (q : List RestartJob) → IsSorted q → IsSorted (insert_after j q)
insert_after-IsSorted j q s =
    subst IsSorted (sort_by_time-push j q s) (sort_by_time-IsSorted (q ++ j ∷ []))

-- The job and the tracker's entry that a call of schedule_restart makes.
abbrev pub scheduled_job : String → SupervisionConfig → ℕ → ℕ → RestartJob
scheduled_job label config n now = record {
  label = label;
  scheduled_at = now + calculate_backoff config n;
  attempt = u32 (n + 1);
}

abbrev pub scheduled_info : SupervisionConfig → ℕ → ℕ → BackoffInfo
scheduled_info config n now' = record {
  backoff_until = now' + calculate_backoff config n;
  attempt = u32 (n + 1);
}

-- The clock is far enough from the last time that an Instant can hold.
abbrev pub InRange : ℕ → Type 0
InRange now = now + from_secs 300 < instant_limit

add_backoff :
    (config : SupervisionConfig) (n now : ℕ)
    → InRange now
    → add_duration now (calculate_backoff config n) ≡ some (now + calculate_backoff config n)
unfolding add_duration
add_backoff config n now h = ground (arith, calculate_backoff-le config n)

module _ (label : String) (config : SupervisionConfig) (n now now' : ℕ) (s : JobSupervisor) where
  -- On a sorted queue and with both clock readings in range, schedule_restart returns the backoff,
  -- puts the restart behind all those due no later, leaves the others where they are, and records
  -- the label in the tracker.
  pub schedule_restart_lem :
      InRange now
      → InRange now'
      → IsSorted s.restart_queue
      → schedule_restart label config n now now' s
        ≡ some (
          record {
            restart_queue = insert_after (scheduled_job label config n now) s.restart_queue;
            backoff_tracker = insert label (scheduled_info config n now') s.backoff_tracker;
          },
          calculate_backoff config n,
        )
  unfolding schedule_restart
  schedule_restart_lem h h' sorted =
      rw (add_backoff config n now h, add_backoff config n now' h')
        (rw (sort_by_time-push (scheduled_job label config n now) s.restart_queue sorted))
