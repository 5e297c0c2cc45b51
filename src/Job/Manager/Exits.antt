-- ===== src/Job/Manager/Exits.antt =====
-- src/job/manager.rs: handle_process_exit, and the restart task behind its channel.
use nusa_launchd.Shared.{
  ℕ, ◌+◌, ◌*◌, ◌^◌, min, String, Bool, true, false, ◌&&◌, Option, none, some, [], ◌∷◌, ◌++◌, ltb,
  leb, if◌then◌else◌,
}
use nusa_launchd.Shared.Int.{ℤ}
use nusa_launchd.Text.{concat, decimal}
use nusa_launchd.Time.{u32, u64, from_secs, add_duration}
use nusa_launchd.Util.{system}
use nusa_launchd.Job.State.{
  JobState, stopped, restarting, failed, backoff, JobInstance, job_exited, job_failed,
  job_restart_scheduled, job_ready_for_restart, RestartRequest,
}
use nusa_launchd.Task.{Task, ◌>>=◌, ◌>>◌, pure, panic, ignore, Channels, deliver}
use nusa_launchd.Event.{send}
use nusa_launchd.Job.Manager.Entry.{get_job, set_job, found}

unfoldable pub calculate_backoff_duration : JobInstance → ℕ
calculate_backoff_duration i =
    let base_delay = i.config.supervision.restart_delay_sec in
    let multiplier = 2 ^ min i.restart_count 5 in from_secs (u64 (base_delay * multiplier))

-- restart_tx.send(…).await.map_err(…)?
unfoldable pub request : Channels → RestartRequest → Task Unit
request ch r =
    deliver (ch.to_request r)
      (system (concat ("Failed to schedule restart: " ∷ ch.send_error ∷ [])))
      (λ s. record s { requests = s.requests ++ r ∷ [] })

unfoldable pub limit_reached : JobInstance → Bool
limit_reached i =
    ltb 0 i.config.supervision.max_restarts && leb i.config.supervision.max_restarts i.restart_count

unfoldable pub exceeded : JobInstance → JobState
unfolding decimal
exceeded i =
    failed
      (concat ("Exceeded max restarts (" ∷ decimal i.config.supervision.max_restarts ∷ ")" ∷ []))

unfoldable pub given_up : Channels → String → JobInstance → Task Unit
unfolding exceeded send
given_up ch label i = do
  set_job label (record i { state = exceeded i })
  send ch (job_failed label (exceeded i))

-- `Instant::now() + backoff_duration` panics on a time that an Instant cannot hold.
unfoldable pub backed_off : Channels → String → JobInstance → ℕ → Option ℕ → Task Unit
unfolding request send
backed_off ch label i delay none = panic
backed_off ch label i delay (some until) = do
  set_job label (record i { state = backoff; backoff_until = some until })
  request ch (record { label = label; delay = delay })
  send ch (job_restart_scheduled label delay i.restart_count)

-- The branch of handle_process_exit that wants a restart. The state Restarting and the new count are
-- in the map before the limit is checked.
unfoldable pub restart_exited : Channels → ℕ → String → JobInstance → Task Unit
unfolding limit_reached given_up backed_off calculate_backoff_duration add_duration
restart_exited ch now label i = do
  set_job label i
  let delay = calculate_backoff_duration i
  if limit_reached i
      then given_up ch label i
      else backed_off ch label i delay (add_duration now delay)

unfoldable pub stop_exited : Channels → String → JobInstance → ℤ → Option ℤ → Task Unit
unfolding send
stop_exited ch label i exit_code signal = do
  set_job label (record i { state = stopped })
  send ch (job_exited label exit_code signal i.restart_count)

unfoldable pub handle_process_exit : Channels → ℕ → String → ℤ → Option ℤ → Bool → Task Unit
unfolding restart_exited stop_exited
handle_process_exit ch now label exit_code signal restart_needed = do
  present ← get_job label
  i ← found label present
  let exited = record i {
    last_exit_code = some exit_code;
    last_exit_signal = signal;
    pid = none;
    process_handle = none;
  }
  if restart_needed
      then restart_exited ch now label
          (record exited { state = restarting; restart_count = u32 (exited.restart_count + 1) })
      else stop_exited ch label exited exit_code signal

-- matches!(state, Backoff | Restarting)
abbrev pub awaits_restart : JobState → Bool
awaits_restart backoff = true
awaits_restart restarting = true
awaits_restart _ = false

unfoldable pub ready_again : Channels → String → Option JobInstance → Task Unit
unfolding send
ready_again ch label none = pure tt
ready_again ch label (some i) =
    if awaits_restart i.state
    then set_job label (record i { state = stopped })
      >> ignore (send ch (job_ready_for_restart label))
    else pure tt

-- The restart task, once the delay of the request has passed.
unfoldable pub handle_restart_request : Channels → RestartRequest → Task Unit
unfolding ready_again
handle_restart_request ch r = do present ← get_job r.label; ready_again ch r.label present
