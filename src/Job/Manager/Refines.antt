-- ===== src/Job/Manager/Refines.antt =====
-- Each block of the manager refines the state machine of one job.
use nusa_launchd.Shared.{
  ℕ, ◌+◌, String, ◌≡◌, refl, Bool, true, false, Option, none, some, arith, Bool-cases, Option-cases,
  inl, inr,
}
use nusa_launchd.Shared.Int.{ℤ}
use nusa_launchd.Dict.{lookup, insert, insert-insert}
use nusa_launchd.Time.{u32}
use nusa_launchd.Util.{NusaError}
use nusa_launchd.Job.Config.{JobConfig}
use nusa_launchd.Job.State.{
  System, JobState, restarting, JobInstance, JoinHandle, RestartRequest, job_started, job_stopped,
  job_loaded, job_failed, job_ready_for_restart,
}
use nusa_launchd.Task.{Channels}
use nusa_launchd.Event.{send}
use nusa_launchd.Job.Manager.{
  load_job, begin_start, commit_start, abort_start, begin_stop, finish_stop, handle_process_exit,
  handle_restart_request, may_start, request, limit_reached, given_up, backed_off, restart_exited,
  stop_exited, awaits_restart, exceeded,
}
use nusa_launchd.Job.Manager.Blocks.{
  Block, loads, begins_start, commits_start, aborts_start, begins_stop, finishes_stop, exits,
  restarts, run_block, label_of,
}
use nusa_launchd.Job.Manager.Changes.{
  start_begins, start_succeeds, start_fails, stop_begins, stop_ends, exit_stops, exit_gives_up,
  exit_backs_off, delay_ends, Effect, keeps, changes, creates,
}
use nusa_launchd.Job.Manager.Leaves.{
  Leaves, bind-Leaves, deliver-Leaves, ignore-Leaves, send-Leaves, request-Leaves,
}

begin_start-Effect :
    (now : ℕ) (label : String) (s : System) → Leaves (Effect label s.jobs) (begin_start now label s)
unfolding begin_start
begin_start-Effect now label s = elim (Option-cases (lookup label s.jobs)) [
  | inl e ↦ rw e (keeps refl)
  | inr (i, e) ↦ elim (Bool-cases (may_start i.state i.backoff_until now)) [
    | inl m ↦ rw (e, m) (changes i _ e (start_begins now m refl) refl)
    | inr m ↦ rw (e, m) (keeps refl)
  ]
]

commit_start-Effect :
    (ch : Channels) (now : ℕ) (label : String) (pid : ℕ) (h : JoinHandle) (s : System)
    → Leaves (Effect label s.jobs) (commit_start ch now label pid h s)
unfolding commit_start
commit_start-Effect ch now label pid h s = elim (Option-cases (lookup label s.jobs)) [
  | inl e ↦ rw e tt
  | inr (i, e) ↦ rw e (
      deliver-Leaves (Effect label s.jobs) (ch.to_event (job_started label pid now)) _ _ _
        (changes i _ e (start_succeeds pid now h refl) refl)
        (changes i _ e (start_succeeds pid now h refl) refl))
]

abort_start-Effect :
    (label : String) (err : NusaError) (s : System)
    → Leaves (Effect label s.jobs) (abort_start label err s)
unfolding abort_start
abort_start-Effect label err s = elim (Option-cases (lookup label s.jobs)) [
  | inl e ↦ rw e tt
  | inr (i, e) ↦ rw e (changes i _ e (start_fails _ refl) refl)
]

begin_stop-Effect :
    (label : String) (s : System) → Leaves (Effect label s.jobs) (begin_stop label s)
unfolding begin_stop
begin_stop-Effect label s = elim (Option-cases (lookup label s.jobs)) [
  | inl e ↦ rw e (keeps refl)
  | inr (i, e) ↦ rw e (changes i _ e (stop_begins refl) refl)
]

finish_stop-Effect :
    (ch : Channels) (label : String) (previous : JobState) (s : System)
    → Leaves (Effect label s.jobs) (finish_stop ch label previous s)
unfolding finish_stop
finish_stop-Effect ch label previous s = elim (Option-cases (lookup label s.jobs)) [
  | inl e ↦ rw e tt
  | inr (i, e) ↦ rw e (
      send-Leaves (Effect label s.jobs) ch (job_stopped label previous) _
        (changes i _ e (stop_ends refl) refl))
]

load_job-Effect :
    (ch : Channels) (config : JobConfig) (s : System)
    → Leaves (Effect config.label s.jobs) (load_job ch config s)
unfolding load_job
load_job-Effect ch config s = elim (Option-cases (lookup config.label s.jobs)) [
  | inl e ↦
      let made = creates config refl e refl in
      rw e (
        bind-Leaves (Effect config.label s.jobs) (send ch (job_loaded config.label) _) _
          (send-Leaves (Effect config.label s.jobs) ch (job_loaded config.label) _ made)
          (λ a t p. elim (Bool-cases config.supervision.keep_alive) [
            | inl k ↦ rw k p
            | inr k ↦ rw k p
          ]))
  | inr (i, e) ↦ rw e (keeps refl)
]

handle_restart_request-Effect :
    (ch : Channels) (r : RestartRequest) (s : System)
    → Leaves (Effect r.label s.jobs) (handle_restart_request ch r s)
unfolding handle_restart_request
handle_restart_request-Effect ch r s = elim (Option-cases (lookup r.label s.jobs)) [
  | inl e ↦ rw e (keeps refl)
  | inr (i, e) ↦ elim (Bool-cases (awaits_restart i.state)) [
    | inl m ↦
        rw (e, m)
          (ignore-Leaves (Effect r.label s.jobs) (send ch (job_ready_for_restart r.label) _) (
            send-Leaves (Effect r.label s.jobs) ch (job_ready_for_restart r.label) _
              (changes i _ e (delay_ends m refl) refl)))
    | inr m ↦ rw (e, m) (keeps refl)
  ]
]

module _ (ch : Channels) (now : ℕ) (label : String) (exit_code : ℤ) (signal : Option ℤ) (s : System)
    (i : JobInstance) (e : lookup label s.jobs ≡ some i) where
  -- The instance that handle_process_exit has put into the map when it checks the limit.
  abbrev counted : JobInstance
  counted = record i {
    state = restarting;
    pid = none;
    process_handle = none;
    last_exit_code = some exit_code;
    last_exit_signal = signal;
    restart_count = u32 (i.restart_count + 1);
  }

  given_up-Effect :
      limit_reached counted ≡ true
      → Leaves
          (Effect label s.jobs)
          (given_up ch label counted (record s { jobs = insert label counted s.jobs }))
  unfolding given_up limit_reached
  given_up-Effect l = send-Leaves (Effect label s.jobs) ch (job_failed label (exceeded counted)) _ (
      changes i _ e (exit_gives_up exit_code signal _ (ground arith) (ground arith) refl)
        (insert-insert label _ _ s.jobs))

  backed_off-Effect :
      (delay : ℕ) (until : Option ℕ)
      → limit_reached counted ≡ false
      → Leaves (Effect label s.jobs) (
          backed_off ch label counted delay until (record s { jobs = insert label counted s.jobs }))
  unfolding backed_off limit_reached
  backed_off-Effect delay none l = tt
  backed_off-Effect delay (some until) l =
      let moved =
        changes i _ e (exit_backs_off exit_code signal until (ground arith) refl)
          (insert-insert label counted _ s.jobs) in
      bind-Leaves (Effect label s.jobs) (request ch _ _) _
        (request-Leaves (Effect label s.jobs) ch _ _ moved)
        (λ a t p. send-Leaves (Effect label s.jobs) ch _ t p)

  restart_exited-Effect : Leaves (Effect label s.jobs) (restart_exited ch now label counted s)
  unfolding restart_exited
  restart_exited-Effect = elim (Bool-cases (limit_reached counted)) [
    | inl l ↦ rw l (given_up-Effect l)
    | inr l ↦ rw l (backed_off-Effect _ _ l)
  ]

  exited-Effect :
      (needed : Bool)
      → Leaves (Effect label s.jobs) (handle_process_exit ch now label exit_code signal needed s)
  unfolding handle_process_exit stop_exited
  exited-Effect true = rw e restart_exited-Effect
  exited-Effect false = rw e (
      send-Leaves (Effect label s.jobs) ch _ _
        (changes i _ e (exit_stops exit_code signal refl) refl))

handle_process_exit-Effect :
    (ch : Channels) (now : ℕ) (label : String) (exit_code : ℤ) (signal : Option ℤ) (needed : Bool)
    (s : System)
    → Leaves (Effect label s.jobs) (handle_process_exit ch now label exit_code signal needed s)
handle_process_exit-Effect ch now label exit_code signal needed s =
    elim (Option-cases (lookup label s.jobs)) [
      | inl e ↦ unfold handle_process_exit in rw e (keeps refl)
      | inr (i, e) ↦ exited-Effect ch now label exit_code signal s i e needed
    ]

-- Each block, in any interleaving and whatever the answers that it gets, leaves the map as it was,
-- makes one move of the state machine on the job that it is about, or creates that job. A panic ends
-- the program and leaves no map.
pub run_block-Effect :
    (b : Block) (s : System) → Leaves (Effect (label_of b) s.jobs) (run_block b s)
unfolding run_block
run_block-Effect (loads ch config) s = load_job-Effect ch config s
run_block-Effect (begins_start now label) s =
    bind-Leaves _ (begin_start now label s) _ (begin_start-Effect now label s) (λ a t p. p)
run_block-Effect (commits_start ch now label pid h) s = commit_start-Effect ch now label pid h s
run_block-Effect (aborts_start label e) s = abort_start-Effect label e s
run_block-Effect (begins_stop label) s =
    bind-Leaves _ (begin_stop label s) _ (begin_stop-Effect label s) (λ a t p. p)
run_block-Effect (finishes_stop ch label previous) s = finish_stop-Effect ch label previous s
run_block-Effect (exits ch now label code signal needed) s =
    handle_process_exit-Effect ch now label code signal needed s
run_block-Effect (restarts ch r) s = handle_restart_request-Effect ch r s
