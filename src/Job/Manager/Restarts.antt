-- ===== src/Job/Manager/Restarts.antt =====
-- The life of a job that is restarted again and again, and the limit on its restarts.
use text.Mathlib.TextPositions.{eq_refl}
use nusa_launchd.Shared.{
  All, ◌∙◌, ◌*◌, ℕ, ◌+◌, String, ◌≡◌, refl, ◌≢◌, ◌<◌, true, false, Option, some, List, [], ◌∷◌,
  ◌++◌, arith,
}
use nusa_launchd.Shared.Int.{ℤ}
use nusa_launchd.Dict.{lookup, insert, lookup-insert}
use nusa_launchd.Time.{u64, from_secs, instant_limit}
use nusa_launchd.Job.Config.{JobConfig}
use nusa_launchd.Job.State.{
  System, JobState, stopped, running, backoff, JobInstance, JobEvent, RestartRequest,
  job_restart_scheduled, job_started, job_ready_for_restart,
}
use nusa_launchd.Task.{pure, Task, Channels, taken, done, ◌>>◌}
use nusa_launchd.Event.{send}
use nusa_launchd.Job.Manager.{
  handle_process_exit, handle_restart_request, may_start, request, limit_reached,
  calculate_backoff_duration, start_job,
}
use nusa_launchd.Process.Spawner.Laws.{monitor}
use nusa_launchd.Process.Spawner.{Os, build_command}
use nusa_launchd.Util.{ok}
use nusa_launchd.Job.Manager.Exit.{recounted, announce, backing_off, handle_process_exit-backs_off}
use nusa_launchd.Job.Manager.Start.{started, start_job-starts}

-- One crash and restart: what the exit was, when it was seen, how the system answers to the start,
-- and when the start was made and done.
pub record Crash : Type 0 where
  pub exit_code : ℤ
  pub signal : Option ℤ
  pub seen : ℕ
  pub os : Os
  pub begun : ℕ
  pub running_at : ℕ
  pub pid : ℕ

module _ (ch : Channels) (label : String) where
  -- The exit is handled, the delay passes, and the job is started again.
  pub crash : Crash → Task Unit
  crash c =
      handle_process_exit ch c.seen label c.exit_code c.signal true
      >> (handle_restart_request ch (record { label = label; delay = 0 })
          >> start_job c.os ch c.begun c.running_at label)

  pub crashes : List Crash → Task Unit
  crashes [] = pure tt
  crashes (c ∷ cs) = crash c >> crashes cs

  -- The channels take what is sent.
  pub record Taking : Type 0 where
    pub events : (e : JobEvent) → ch.to_event e ≡ taken
    pub requests : (r : RestartRequest) → ch.to_request r ≡ taken

  -- The start succeeds, and the time after the backoff is one that an Instant can hold.
  pub record Restarts (config : JobConfig) (c : Crash) : Type 0 where
    pub spawns : c.os.spawn (build_command c.os config) ≡ ok (some c.pid)
    pub in_range :
        c.seen + from_secs (u64 (config.supervision.restart_delay_sec * 2)) < instant_limit

  -- The job runs with no restart counted.
  pub record RunsUncounted (config : JobConfig) (s : System) : Type 0 where
    pub instance_of : JobInstance
    pub present : lookup label s.jobs ≡ some instance_of
    pub is_running : instance_of.state ≡ running
    pub uncounted : instance_of.restart_count ≡ 0
    pub configured : instance_of.config ≡ config

  sent :
      Taking
      → (e : JobEvent) (s : System)
      → send ch e s ≡ (done tt, record s { events = s.events ++ e ∷ [] })
  unfolding send
  sent t e s = rw (t.events e)

  requested :
      Taking
      → (r : RestartRequest) (s : System)
      → request ch r s ≡ (done tt, record s { requests = s.requests ++ r ∷ [] })
  unfolding request
  requested t r s = rw (t.requests r)

  first_delay :
      (i : JobInstance) (exit_code : ℤ) (signal : Option ℤ)
      → i.restart_count ≡ 0
      → calculate_backoff_duration (recounted i exit_code signal)
        ≡ from_secs (u64 (i.config.supervision.restart_delay_sec * 2))
  unfolding calculate_backoff_duration
  first_delay i exit_code signal z = rw z

  below_limit :
      (i : JobInstance) (exit_code : ℤ) (signal : Option ℤ)
      → i.restart_count ≡ 0
      → i.config.supervision.max_restarts ≢ 1
      → limit_reached (recounted i exit_code signal) ≡ false
  unfolding limit_reached
  below_limit i exit_code signal z m = ground arith

  -- A job in the state, with the configuration.
  record Holds (config : JobConfig) (state : JobState) (s : System) : Type 0 where
    instance_of : JobInstance
    present : lookup label s.jobs ≡ some instance_of
    in_state : instance_of.state ≡ state
    configured : instance_of.config ≡ config

  -- What the two sends of a scheduled restart leave.
  announced : JobInstance → System → System
  announced i s = record s {
    requests = s.requests ++ record { label = label; delay = calculate_backoff_duration i } ∷ [];
    events =
        s.events ++ job_restart_scheduled label (calculate_backoff_duration i) i.restart_count ∷ [];
  }

  announce-announced :
      Taking → (i : JobInstance) (s : System) → announce ch label i s ≡ (done tt, announced i s)
  unfolding announced
  announce-announced t i s = rw (requested t, sent t)

  exits-backs_off :
      (config : JobConfig) (c : Crash) (s : System)
      → Taking
      → Restarts config c
      → config.supervision.max_restarts ≢ 1
      → RunsUncounted config s
      → (t : System) × (handle_process_exit ch c.seen label c.exit_code c.signal true s
          ≡ (done tt, t))
        × Holds config backoff t
  unfolding announced
  exits-backs_off config c s t r m u =
      let i = recounted u.instance_of c.exit_code c.signal in
      let until = c.seen + calculate_backoff_duration i in
      let waiting = backing_off ch c.seen label c.exit_code c.signal s u.instance_of until in
      (
        announced i waiting,
        handle_process_exit-backs_off ch c.seen label c.exit_code c.signal s u.instance_of _
              u.present
              (below_limit u.instance_of c.exit_code c.signal u.uncounted (rw u.configured m)) refl
              (rw (first_delay u.instance_of c.exit_code c.signal u.uncounted, u.configured)
                r.in_range)
            ∙ announce-announced t i waiting,
        record {
          instance_of = record i { state = backoff; backoff_until = some until };
          present = rw (lookup-insert, eq_refl label);
          in_state = refl;
          configured = u.configured;
        },
      )

  delay-stops :
      (config : JobConfig) (s : System)
      → Taking
      → Holds config backoff s
      → (t : System) × (handle_restart_request ch (record { label = label; delay = 0 }) s
          ≡ (done tt, t))
        × Holds config stopped t
  unfolding handle_restart_request
  delay-stops config s t h =
      let i = record h.instance_of { state = stopped } in
      let jobs' = insert label i s.jobs in
      (
        record s { jobs = jobs'; events = s.events ++ job_ready_for_restart label ∷ [] },
        rw (h.present, h.in_state, sent t),
        record {
          instance_of = i;
          present = rw (lookup-insert, eq_refl label);
          in_state = refl;
          configured = h.configured;
        },
      )

  start-runs :
      (config : JobConfig) (c : Crash) (s : System)
      → Taking
      → Restarts config c
      → Holds config stopped s
      → (t : System) × (start_job c.os ch c.begun c.running_at label s ≡ (done tt, t))
        × RunsUncounted config t
  unfolding may_start
  start-runs config c s t r h =
      let i = started h.instance_of c.pid c.running_at (monitor h.instance_of.config c.pid) in
      (
        _,
        start_job-starts c.os ch c.begun c.running_at label s h.instance_of c.pid h.present
              (rw h.in_state) (rw h.configured r.spawns)
            ∙ sent t (job_started label c.pid c.running_at) _,
        record {
          instance_of = i;
          present = rw (lookup-insert, eq_refl label);
          is_running = refl;
          uncounted = refl;
          configured = h.configured;
        },
      )

  crash-runs :
      (config : JobConfig) (c : Crash) (s : System)
      → Taking
      → Restarts config c
      → config.supervision.max_restarts ≢ 1
      → RunsUncounted config s
      → (t : System) × (crash c s ≡ (done tt, t)) × RunsUncounted config t
  unfolding crash
  crash-runs config c s t r m u =
      let (s₁, e₁, h₁) = exits-backs_off config c s t r m u in
      let (s₂, e₂, h₂) = delay-stops config s₁ t h₁ in
      let (s₃, e₃, u₃) = start-runs config c s₂ t r h₂ in (s₃, rw (e₁, e₂) e₃, u₃)

  -- Where the channels take what is sent, each start succeeds and no backoff passes the last Instant,
  -- a job that runs with no restart counted, whose limit is not 1, can crash and be restarted any
  -- number of times, above its limit too, and always runs again with no restart counted.
  pub crashes-run :
      (config : JobConfig) (cs : List Crash) (s : System)
      → Taking
      → All (Restarts config) cs
      → config.supervision.max_restarts ≢ 1
      → RunsUncounted config s
      → (t : System) × (crashes cs s ≡ (done tt, t)) × RunsUncounted config t
  unfolding crashes
  crashes-run config [] s t r m u = (s, refl, u)
  crashes-run config (c ∷ cs) s t r m u =
      let (s₁, e₁, u₁) = crash-runs config c s t r.0 m u in
      let (s₂, e₂, u₂) = crashes-run config cs s₁ t r.1 m u₁ in (s₂, rw e₁ e₂, u₂)
