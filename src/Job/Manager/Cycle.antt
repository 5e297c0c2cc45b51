-- ===== src/Job/Manager/Cycle.antt =====
-- Calls that follow one another on one job: a second start, and a restart.
use text.Mathlib.TextPositions.{eq_refl}
use nusa_launchd.Shared.{
  ℕ, String, ◌≡◌, refl, ◌∙◌, none, some, [], ◌∷◌, ◌++◌, Option-cases, Bool-cases, inl, inr,
}
use nusa_launchd.Dict.{lookup, insert, lookup-insert, insert-insert}
use nusa_launchd.Util.{NusaError, ok}
use nusa_launchd.Job.Config.{JobConfig}
use nusa_launchd.Job.State.{
  System, JobInstance, JoinHandle, JobEvent, starting, running, stopped, job_started, job_stopped,
}
use nusa_launchd.Task.{Channels, Answer, deliver, taken, closed, full, done}
use nusa_launchd.Event.{send}
use nusa_launchd.Process.Spawner.{Os, build_command}
use nusa_launchd.Process.Spawner.Laws.{monitor}
use nusa_launchd.Job.Manager.{begin_start, commit_start, may_start, stop_job, restart_job}
use nusa_launchd.Job.Manager.Start.{started, start_job-starts}
use nusa_launchd.Job.Manager.Stop.{ended, stop_signals, stop_job-stops}

begun :
    (now : ℕ) (label : String) (config : JobConfig) (s t : System)
    → begin_start now label s ≡ (done (some config), t)
    → (i : JobInstance) × (lookup label t.jobs ≡ some i) × (i.state ≡ starting)
unfolding begin_start
begun now label config s t e = elim (Option-cases (lookup label s.jobs)) [
  | inl x ↦ let failed = rw x at e in cc
  | inr (i, x) ↦ elim (Bool-cases (may_start i.state i.backoff_until now)) [
    | inl m ↦
        let j = record i { state = starting; backoff_until = none } in
        let began = rw (x, m) at e in
        let left : t ≡ record s { jobs = insert label j s.jobs } = cc in
        (j, rw left (rw (lookup-insert, eq_refl label)), refl)
    | inr m ↦ let refused = rw (x, m) at e in cc
  ]
]

begin_start-starting :
    (now : ℕ) (label : String) (s : System) (i : JobInstance)
    → lookup label s.jobs ≡ some i
    → i.state ≡ starting
    → begin_start now label s ≡ (done none, s)
unfolding begin_start may_start
begin_start-starting now label s i e st = rw (e, st)

-- While one start_job that goes on is between its two blocks, and no other call has touched the job,
-- the first block of a second start_job of the job changes nothing and gives nothing to spawn.
pub begin_start-excludes :
    (now now' : ℕ) (label : String) (config : JobConfig) (s t u : System)
    → begin_start now label s ≡ (done (some config), t)
    → lookup label u.jobs ≡ lookup label t.jobs
    → begin_start now' label u ≡ (done none, u)
begin_start-excludes now now' label config s t u e same =
    let (i, at, st) = begun now label config s t e in
    begin_start-starting now' label u i (same ∙ at) st

-- Where the event channel of the stop takes events and the system of the start spawns the process,
-- and no other call runs in between, restart_job on a loaded job, whatever its state, backoff
-- included, signals the old process as a stop does, has the new one running with no restart counted,
-- and sends JobStopped with the state before and then JobStarted.
pub restart_job_lem :
    (os os' : Os) (ch ch' : Channels) (now now' : ℕ) (label : String) (s : System) (i : JobInstance)
    (pid : ℕ)
    → lookup label s.jobs ≡ some i
    → ch.to_event (job_stopped label i.state) ≡ taken
    → os'.spawn (build_command os' i.config) ≡ ok (some pid)
    → restart_job os os' ch ch' now now' label s
      ≡ send ch' (job_started label pid now') (record s {
        jobs = insert label (started (ended i) pid now' (monitor i.config pid)) s.jobs;
        signals = s.signals ++ stop_signals os i.pid i.process_handle;
        events = s.events ++ job_stopped label i.state ∷ [];
        monitors = s.monitors ++ monitor i.config pid ∷ [];
      })
unfolding restart_job may_start send
restart_job_lem os os' ch ch' now now' label s i pid e t o =
    let s₁ : System = record s {
      jobs = insert label (ended i) s.jobs;
      signals = s.signals ++ stop_signals os i.pid i.process_handle;
      events = s.events ++ job_stopped label i.state ∷ [];
    } in
    rw (
      stop_job-stops os ch label s i e,
      t,
      start_job-starts os' ch' now now' label s₁ (ended i) pid (rw (lookup-insert, eq_refl label))
          refl o,
      insert-insert,
    )

deliver-jobs :
    (a : Answer) (e : NusaError) (f : System → System) (s : System)
    → (f s).jobs ≡ s.jobs
    → (deliver a e f s).1.jobs ≡ s.jobs
deliver-jobs taken e f s h = h
deliver-jobs closed e f s h = refl
deliver-jobs full e f s h = refl

send-jobs : (ch : Channels) (e : JobEvent) (s : System) → (send ch e s).1.jobs ≡ s.jobs
unfolding send
send-jobs ch e s = deliver-jobs (ch.to_event e) _ _ s refl

commit-runs :
    (ch : Channels) (now : ℕ) (label : String) (pid : ℕ) (handle : JoinHandle) (s : System)
    (i : JobInstance)
    → lookup label s.jobs ≡ some i
    → (j : JobInstance) × (lookup label (commit_start ch now label pid handle s).1.jobs ≡ some j)
      × (j.state ≡ running)
unfolding commit_start
commit-runs ch now label pid handle s i e =
    let j = record i {
      state = running;
      pid = some pid;
      start_time = some now;
      process_handle = some handle;
      restart_count = 0;
    } in
    (j, rw (e, send-jobs, lookup-insert, eq_refl label), refl)

-- A stop_job that runs while a start_job of the job is between its two blocks is undone by the start:
-- the job is Stopped after the stop, and Running again after the second block of the start, which
-- follows a spawn that succeeded.
pub stop_job-overtaken :
    (os : Os) (ch ch' : Channels) (now now' pid : ℕ) (handle : JoinHandle) (label : String)
    (config : JobConfig) (s t : System)
    → begin_start now label s ≡ (done (some config), t)
    → let u = (stop_job os ch label t).1 in
      ((i : JobInstance) × (lookup label u.jobs ≡ some i) × (i.state ≡ stopped))
      × ((j : JobInstance) × (lookup label (commit_start ch' now' label pid handle u).1.jobs
            ≡ some j)
          × (j.state ≡ running))
stop_job-overtaken os ch ch' now now' pid handle label config s t e =
    let (i, at, st) = begun now label config s t e in
    let u = (stop_job os ch label t).1 in
    let p : lookup label u.jobs ≡ some (ended i) =
      rw (stop_job-stops os ch label t i at, send-jobs, lookup-insert, eq_refl label) in
    ((ended i, p, refl), commit-runs ch' now' label pid handle u (ended i) p)
