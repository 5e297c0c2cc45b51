-- ===== src/Job/Manager/Start.antt =====
-- What a whole call of start_job does when no other call runs in between.
use text.Mathlib.TextPositions.{eq_refl}
use nusa_launchd.Shared.{
  ◌↔◌, le→leb, ℕ, String, ◌≡◌, refl, ◌≢◌, ◌≤◌, true, false, Option, none, some, [], ◌∷◌, ◌++◌,
  arith, Bool-cases, Option-cases, inl, inr,
}
use nusa_launchd.Dict.{lookup, insert, lookup-insert, insert-insert}
use nusa_launchd.Util.{NusaError, job_not_found, ok, display}
use nusa_launchd.Job.State.{
  System, JobState, starting, running, failed, backoff, JobInstance, JoinHandle, job_started,
}
use nusa_launchd.Task.{Channels, Outcome, done, fails}
use nusa_launchd.Event.{send}
use nusa_launchd.Job.Manager.{may_start, start_job}
use nusa_launchd.Text.{concat}
use nusa_launchd.Process.Spawner.Laws.{
  monitor, spawn-ok, SpawnFails, spawn-fails, spawn_answer, SpawnAnswer,
}
use nusa_launchd.Process.Spawner.{Os, build_command}

-- The instance of a job that start_job has started.
abbrev pub started : JobInstance → ℕ → ℕ → JoinHandle → JobInstance
started i pid now handle = record i {
  state = running;
  pid = some pid;
  start_time = some now;
  restart_count = 0;
  backoff_until = none;
  process_handle = some handle;
}

-- A start goes on unless the job runs, starts, or waits for a later time.
pub record IsStartable (i : JobInstance) (now : ℕ) : Type 0 where
  pub not_running : i.state ≢ running
  pub not_starting : i.state ≢ starting
  pub waited : (until : ℕ) → i.state ≡ backoff → i.backoff_until ≡ some until → until ≤ now

may_start_of :
    (st : JobState) (u : Option ℕ) (now : ℕ)
    → st ≢ running
    → st ≢ starting
    → ((until : ℕ) → st ≡ backoff → u ≡ some until → until ≤ now)
    → may_start st u now ≡ true
unfolding may_start
may_start_of running u now r t w = absurd (r refl)
may_start_of starting u now r t w = absurd (t refl)
may_start_of backoff none now r t w = refl
may_start_of backoff (some until) now r t w = le→leb until now (w until refl refl)
may_start_of _ u now r t w = refl

may_start_iff :
    (i : JobInstance) (now : ℕ) → (may_start i.state i.backoff_until now ≡ true) ↔ IsStartable i now
unfolding may_start
may_start_iff i now = (
  λ h. record {
    not_running = λ e. ground arith;
    not_starting = λ e. ground arith;
    waited = λ until e u. ground arith;
  },
  λ v. may_start_of i.state i.backoff_until now v.not_running v.not_starting v.waited,
)

module _ (os : Os) (ch : Channels) (now now' : ℕ) (label : String) (s : System) where
  -- start_job on a label that is not loaded returns JobNotFound and changes nothing.
  pub start_job-missing :
      lookup label s.jobs ≡ none
      → start_job os ch now now' label s ≡ (fails (job_not_found label), s)
  unfolding start_job
  start_job-missing e = rw e

  -- start_job on a job that runs, starts, or is still in backoff returns Ok and changes nothing.
  pub start_job-refused :
      (i : JobInstance)
      → lookup label s.jobs ≡ some i
      → may_start i.state i.backoff_until now ≡ false
      → start_job os ch now now' label s ≡ (done tt, s)
  unfolding start_job
  start_job-refused i e m = rw (e, m)

  pub start_job-starts :
      (i : JobInstance) (pid : ℕ)
      → lookup label s.jobs ≡ some i
      → may_start i.state i.backoff_until now ≡ true
      → os.spawn (build_command os i.config) ≡ ok (some pid)
      → start_job os ch now now' label s
        ≡ send ch (job_started label pid now') (record s {
          jobs = insert label (started i pid now' (monitor i.config pid)) s.jobs;
          monitors = s.monitors ++ monitor i.config pid ∷ [];
        })
  unfolding start_job
  start_job-starts i pid e m o =
      rw (
        e,
        m,
        spawn-ok os i.config _ pid o,
        lookup-insert label label,
        eq_refl label,
        insert-insert,
      )

  -- The job after a spawn that failed with the error `e`.
  abbrev start_failed : JobInstance → NusaError → System
  start_failed i e = record s {
    jobs =
        insert label
          (record i {
            state = failed (concat ("Failed to start: " ∷ display e ∷ []));
            backoff_until = none;
          })
          s.jobs;
  }

  pub start_job-fails :
      (i : JobInstance) (x : NusaError)
      → lookup label s.jobs ≡ some i
      → may_start i.state i.backoff_until now ≡ true
      → SpawnFails os i.config x
      → start_job os ch now now' label s ≡ (fails x, start_failed i x)
  unfolding start_job
  start_job-fails i x e m o =
      rw (
        e,
        m,
        spawn-fails os i.config x _ o,
        lookup-insert label label,
        eq_refl label,
        insert-insert,
      )

  -- How a call of start_job can end.
  pub data StartAnswer (r : Outcome Unit × System) : Type 0 where
    missing : lookup label s.jobs ≡ none → r ≡ (fails (job_not_found label), s) → StartAnswer r
    refuses :
        (i : JobInstance)
        → lookup label s.jobs ≡ some i
        → ¬ IsStartable i now
        → r ≡ (done tt, s)
        → StartAnswer r
    starts :
        (i : JobInstance) (pid : ℕ)
        → lookup label s.jobs ≡ some i
        → IsStartable i now
        → os.spawn (build_command os i.config) ≡ ok (some pid)
        → r
          ≡ send ch (job_started label pid now') (record s {
            jobs = insert label (started i pid now' (monitor i.config pid)) s.jobs;
            monitors = s.monitors ++ monitor i.config pid ∷ [];
          })
        → StartAnswer r
    breaks :
        (i : JobInstance) (x : NusaError)
        → lookup label s.jobs ≡ some i
        → IsStartable i now
        → SpawnFails os i.config x
        → r ≡ (fails x, start_failed i x)
        → StartAnswer r

  -- Every call of start_job, with no other call in between: on an unknown label it returns
  -- JobNotFound; on a job that runs, starts or is in backoff until later it returns Ok; on both
  -- nothing changes. On any other job, a spawn that succeeds makes the job Running with the new
  -- process, start time and monitor and with no restarts counted, and then the event is sent; a
  -- spawn that fails makes it Failed with the error's text, and the error is returned.
  pub start_job_cases : StartAnswer (start_job os ch now now' label s)
  start_job_cases = elim (Option-cases (lookup label s.jobs)) [
    | inl e ↦ missing e (start_job-missing e)
    | inr (i, e) ↦ elim (Bool-cases (may_start i.state i.backoff_until now)) [
      | inr m ↦ refuses i e (λ v. cc ((may_start_iff i now).1 v)) (start_job-refused i e m)
      | inl m ↦ elim (spawn_answer os i.config) [
        | SpawnAnswer.runs pid o ↦
            starts i pid e ((may_start_iff i now).0 m) o (start_job-starts i pid e m o)
        | SpawnAnswer.breaks x o ↦
            breaks i x e ((may_start_iff i now).0 m) o (start_job-fails i x e m o)
      ]
    ]
  ]
