-- ===== src/Job/Manager/Backlog/Exits.antt =====
-- The exits of processes, as handle_process_exit makes them, are the steps of the backlog.
use nusa_launchd.Shared.{
  ℕ, ◌+◌, ◌<◌, ◌≡◌, refl, ◌⊎◌, inl, inr, true, false, Option, none, some, String, [], ◌∷◌, ◌++◌,
  length, ltb, ltb→lt, ltb→le, Bool-cases,
}
use nusa_launchd.Shared.Int.{ℤ}
use nusa_launchd.Time.{instant_limit}
use nusa_launchd.Dict.{lookup}
use nusa_launchd.Job.State.{System, JobInstance, JobEvent, job_restart_scheduled, RestartRequest}
use nusa_launchd.Task.{Channels, Answer, done, waits as stays}
use nusa_launchd.Event.{send}
use nusa_launchd.Job.Manager.{
  handle_process_exit, limit_reached, calculate_backoff_duration, request,
}
use nusa_launchd.Job.Manager.Exit.{recounted, backing_off, handle_process_exit-backs_off}
use nusa_launchd.Job.Manager.Backlog.{capacity, Backlog, Step, sends, waits, answer}

-- A handle_process_exit that schedules a restart, on a channel that answers as the backlog does, with
-- the lock free and its events taken, makes a step of the backlog: with room in the channel it ends
-- and its request is in the queue, and with none it waits with its request, and with the lock.
pub handle_process_exit-Step :
    (ch : Channels) (now : ℕ) (label : String) (exit_code : ℤ) (signal : Option ℤ) (s : System)
    (i : JobInstance) (delay : ℕ) (b : Backlog)
    → ((r : RestartRequest) → ch.to_request r ≡ answer b)
    → ((e : JobEvent) → ch.to_event e ≡ Answer.taken)
    → b.sender ≡ none
    → lookup label s.jobs ≡ some i
    → limit_reached (recounted i exit_code signal) ≡ false
    → delay ≡ calculate_backoff_duration (recounted i exit_code signal)
    → now + delay < instant_limit
    → let r : RestartRequest = record { label = label; delay = delay } in
      (c : Backlog) × (t : System) × Step ch b c
      × (((handle_process_exit ch now label exit_code signal true s ≡ (done tt, t))
            × (t.requests ≡ s.requests ++ r ∷ [])
            × (c.queue ≡ b.queue ++ r ∷ []))
          ⊎ ((handle_process_exit ch now label exit_code signal true s ≡ (stays, t))
              × (c.sender ≡ some r)))
unfolding answer request send
handle_process_exit-Step ch now label exit_code signal s i delay b answers takes free e l d f =
    let r : RestartRequest = record { label = label; delay = delay } in
    let event = job_restart_scheduled label delay (recounted i exit_code signal).restart_count in
    let u : System = backing_off ch now label exit_code signal s i (now + delay) in
    let t : System = record u {
      requests = s.requests ++ r ∷ [];
      events = s.events ++ event ∷ [];
    } in
    let backs = handle_process_exit-backs_off ch now label exit_code signal s i delay e l d f in
    elim (Bool-cases (ltb (length b.queue) capacity)) [
      | inl y ↦ (
        _,
        t,
        sends r free (ltb→lt _ _ y),
        inl (rw (backs, ← d, answers r, y, takes event) refl, refl, refl),
      )
      | inr n ↦ (_, u, waits r free (ltb→le _ _ n), inr (rw (backs, ← d, answers r, n) refl, refl))
    ]
