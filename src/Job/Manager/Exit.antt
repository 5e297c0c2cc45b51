-- ===== src/Job/Manager/Exit.antt =====
-- What a whole call of handle_process_exit does.
use nusa_launchd.Shared.{
  ltb, ltb→lt, ltb→le, ℕ, ◌+◌, String, ◌≡◌, refl, ◌⊎◌, ◌≤◌, ◌<◌, ap, Bool, true, false, Option,
  none, some, [], ◌∷◌, arith, Bool-cases, Option-cases, inl, inr,
}
use nusa_launchd.Shared.Int.{ℤ}
use nusa_launchd.Dict.{lookup, insert, insert-insert}
use nusa_launchd.Time.{u32, add_duration, instant_limit}
use nusa_launchd.Job.State.{
  System, stopped, restarting, failed, backoff, JobInstance, job_exited, job_failed,
  job_restart_scheduled,
}
use nusa_launchd.Task.{Task, Channels, Outcome, fails, panics, ◌>>◌}
use nusa_launchd.Event.{send}
use nusa_launchd.Job.Manager.{
  handle_process_exit, request, limit_reached, exceeded, calculate_backoff_duration,
}
use nusa_launchd.Text.{concat, decimal}
use nusa_launchd.Util.{job_not_found}

-- The job after its process has ended.
abbrev pub exited : JobInstance → ℤ → Option ℤ → JobInstance
exited i exit_code signal = record i {
  pid = none;
  process_handle = none;
  last_exit_code = some exit_code;
  last_exit_signal = signal;
}

-- The same with one more restart counted.
abbrev pub recounted : JobInstance → ℤ → Option ℤ → JobInstance
recounted i exit_code signal = record (exited i exit_code signal) {
  state = restarting;
  restart_count = u32 (i.restart_count + 1);
}

abbrev pub exceeded_reason : JobInstance → String
exceeded_reason i =
    concat ("Exceeded max restarts (" ∷ decimal i.config.supervision.max_restarts ∷ ")" ∷ [])

-- The new count is at or above a limit that is not 0.
abbrev pub AtLimit : JobInstance → Type 0
AtLimit i =
    (0 < i.config.supervision.max_restarts) × (i.config.supervision.max_restarts ≤ i.restart_count)

abbrev pub BelowLimit : JobInstance → Type 0
BelowLimit i =
    (i.config.supervision.max_restarts ≡ 0) ⊎ (i.restart_count < i.config.supervision.max_restarts)

limit-AtLimit : (i : JobInstance) → limit_reached i ≡ true → AtLimit i
unfolding limit_reached
limit-AtLimit i h = ground arith

limit-BelowLimit : (i : JobInstance) → limit_reached i ≡ false → BelowLimit i
unfolding limit_reached
limit-BelowLimit i h = ground arith

add_in_range : (t d : ℕ) → t + d < instant_limit → add_duration t d ≡ some (t + d)
unfolding add_duration
add_in_range t d h = ground arith

add_out_of_range : (t d : ℕ) → instant_limit ≤ t + d → add_duration t d ≡ none
unfolding add_duration
add_out_of_range t d h = ground arith

-- The two sends of a scheduled restart.
abbrev pub announce : Channels → String → JobInstance → Task Unit
announce ch label i =
    request ch (record { label = label; delay = calculate_backoff_duration i })
    >> send ch (job_restart_scheduled label (calculate_backoff_duration i) i.restart_count)

module _ (ch : Channels) (now : ℕ) (label : String) (exit_code : ℤ) (signal : Option ℤ)
    (s : System) where
  -- The job in backoff until the given time.
  abbrev pub backing_off : JobInstance → ℕ → System
  backing_off i until = record s {
    jobs =
        insert label
          (record (recounted i exit_code signal) { state = backoff; backoff_until = some until })
          s.jobs;
  }

  -- How a call of handle_process_exit can end.
  pub data ExitAnswer (needed : Bool) (r : Outcome Unit × System) : Type 0 where
    missing :
        lookup label s.jobs ≡ none → r ≡ (fails (job_not_found label), s) → ExitAnswer needed r
    stops :
        (i : JobInstance)
        → lookup label s.jobs ≡ some i
        → needed ≡ false
        → r
          ≡ send ch (job_exited label exit_code signal i.restart_count) (record s {
            jobs = insert label (record (exited i exit_code signal) { state = stopped }) s.jobs;
          })
        → ExitAnswer needed r
    gives_up :
        (i : JobInstance)
        → lookup label s.jobs ≡ some i
        → needed ≡ true
        → AtLimit (recounted i exit_code signal)
        → r
          ≡ send ch (job_failed label (failed (exceeded_reason i))) (record s {
            jobs =
                insert label
                  (record (recounted i exit_code signal) { state = failed (exceeded_reason i) })
                  s.jobs;
          })
        → ExitAnswer needed r
    backs_off :
        (i : JobInstance) (until : ℕ)
        → lookup label s.jobs ≡ some i
        → needed ≡ true
        → BelowLimit (recounted i exit_code signal)
        → until ≡ now + calculate_backoff_duration (recounted i exit_code signal)
        → until < instant_limit
        → r ≡ announce ch label (recounted i exit_code signal) (backing_off i until)
        → ExitAnswer needed r
    overflows :
        (i : JobInstance)
        → lookup label s.jobs ≡ some i
        → needed ≡ true
        → BelowLimit (recounted i exit_code signal)
        → instant_limit ≤ now + calculate_backoff_duration (recounted i exit_code signal)
        → r.0 ≡ panics
        → ExitAnswer needed r

  limited :
      (i : JobInstance)
      → lookup label s.jobs ≡ some i
      → limit_reached (recounted i exit_code signal) ≡ true
      → ExitAnswer true (handle_process_exit ch now label exit_code signal true s)
  unfolding handle_process_exit exceeded
  limited i e l =
      gives_up i e refl (limit-AtLimit (recounted i exit_code signal) l) (rw (e, l, insert-insert))

  pub handle_process_exit-backs_off :
      (i : JobInstance) (delay : ℕ)
      → lookup label s.jobs ≡ some i
      → limit_reached (recounted i exit_code signal) ≡ false
      → delay ≡ calculate_backoff_duration (recounted i exit_code signal)
      → now + delay < instant_limit
      → handle_process_exit ch now label exit_code signal true s
        ≡ announce ch label (recounted i exit_code signal) (backing_off i (now + delay))
  unfolding handle_process_exit
  handle_process_exit-backs_off i delay e l d f =
      rw (e, l, ← d, add_in_range now delay f, insert-insert)

  waiting :
      (i : JobInstance) (delay : ℕ)
      → lookup label s.jobs ≡ some i
      → limit_reached (recounted i exit_code signal) ≡ false
      → delay ≡ calculate_backoff_duration (recounted i exit_code signal)
      → ExitAnswer true (handle_process_exit ch now label exit_code signal true s)
  waiting i delay e l d = elim (Bool-cases (ltb (now + delay) instant_limit)) [
    | inl f ↦
        backs_off i (now + delay) e refl (limit-BelowLimit (recounted i exit_code signal) l)
          (ap (◌+◌ now) d) (ltb→lt _ _ f)
          (handle_process_exit-backs_off i delay e l d (ltb→lt _ _ f))
    | inr f ↦
        let far : instant_limit ≤ now + delay = ltb→le _ _ f in
        overflows i e refl (limit-BelowLimit (recounted i exit_code signal) l) (rw (← d) far)
          (unfold handle_process_exit in rw (e, l, ← d, add_out_of_range now delay far))
  ]

  -- Every call of handle_process_exit. On an unknown label it returns JobNotFound and changes
  -- nothing. Otherwise it records the exit and drops the process and the monitor. With no restart
  -- wanted the job is Stopped and JobExited is sent. With one wanted the restart is counted; at or
  -- above a limit that is not 0 the job is Failed and JobFailed is sent; below it, or with no limit,
  -- the job is in Backoff until now plus the backoff, and the restart is requested and then
  -- announced; but where that time is too large for an Instant the program panics.
  pub handle_process_exit_cases :
      (needed : Bool)
      → ExitAnswer needed (handle_process_exit ch now label exit_code signal needed s)
  unfolding handle_process_exit
  handle_process_exit_cases needed = elim (Option-cases (lookup label s.jobs)) [
    | inl e ↦ missing e (rw e)
    | inr (i, e) ↦ answer i e needed
  ]
    where
      answer :
          (i : JobInstance)
          → lookup label s.jobs ≡ some i
          → (b : Bool) → ExitAnswer b (handle_process_exit ch now label exit_code signal b s)
      answer i e false = stops i e refl (rw e)
      answer i e true = elim (Bool-cases (limit_reached (recounted i exit_code signal))) [
        | inl l ↦ limited i e l
        | inr l ↦ waiting i _ e l refl
      ]
