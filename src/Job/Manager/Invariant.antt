-- ===== src/Job/Manager/Invariant.antt =====
-- What every block of the manager keeps, in any interleaving.
use text.Mathlib.Text.{◌==◌ as str_eq}
use text.Mathlib.TextEquality.{eq_iff}
use nusa_launchd.Shared.{
  String, ◌≡◌, ◌≢◌, subst, true, none, some, arith, is_some, Bool-cases, inl, inr,
}
use nusa_launchd.Dict.{lookup, insert, lookup-insert}
use nusa_launchd.Job.Config.{JobConfig}
use nusa_launchd.Job.State.{
  System, stopped, running, restarting, backoff, JobInstance, empty_system,
}
use nusa_launchd.Job.Manager.{new_instance}
use nusa_launchd.Job.Manager.Blocks.{run_block, label_of, Steps, here, next}
use nusa_launchd.Job.Manager.Changes.{
  Jobs, Change, start_begins, start_succeeds, start_fails, stop_begins, stop_ends, exit_stops,
  exit_gives_up, exit_backs_off, delay_ends, Effect, keeps, changes, creates,
}
use nusa_launchd.Job.Manager.Leaves.{Leaves-at}
use nusa_launchd.Job.Manager.Refines.{run_block-Effect}

-- A job stands under its own label; a running job has a process, a start time and a monitor; a
-- stopped one has no process; one in backoff has no process and a time to wait for; and no job is
-- left in the state Restarting.
pub record IsConsistent (label : String) (i : JobInstance) : Type 0 where
  pub labelled : i.config.label ≡ label
  pub running_pid : i.state ≡ running → is_some i.pid ≡ true
  pub running_since : i.state ≡ running → is_some i.start_time ≡ true
  pub running_handle : i.state ≡ running → is_some i.process_handle ≡ true
  pub stopped_pid : i.state ≡ stopped → i.pid ≡ none
  pub backoff_pid : i.state ≡ backoff → i.pid ≡ none
  pub backoff_time : i.state ≡ backoff → is_some i.backoff_until ≡ true
  pub settled : i.state ≢ restarting

abbrev pub AllConsistent : Jobs → Type 0
AllConsistent jobs =
    (label : String) (i : JobInstance) → lookup label jobs ≡ some i → IsConsistent label i

Change-IsConsistent :
    (label : String) (i j : JobInstance) → Change i j → IsConsistent label i → IsConsistent label j
Change-IsConsistent label i j (start_begins now m e) c = rw e (ground arith)
Change-IsConsistent label i j (start_succeeds pid now h e) c = rw e (ground arith)
Change-IsConsistent label i j (start_fails reason e) c = rw e (ground arith)
Change-IsConsistent label i j (stop_begins e) c = rw e (ground arith)
Change-IsConsistent label i j (stop_ends e) c = rw e (ground arith)
Change-IsConsistent label i j (exit_stops code signal e) c = rw e (ground arith)
Change-IsConsistent label i j (exit_gives_up code signal reason l m e) c = rw e (ground arith)
Change-IsConsistent label i j (exit_backs_off code signal until l e) c = rw e (ground arith)
Change-IsConsistent label i j (delay_ends m e) c = rw e (ground arith)

new_instance-IsConsistent : (config : JobConfig) → IsConsistent config.label (new_instance config)
unfolding new_instance
new_instance-IsConsistent config = ground arith

AllConsistent-insert :
    (label : String) (i : JobInstance) (jobs : Jobs)
    → IsConsistent label i
    → AllConsistent jobs
    → AllConsistent (insert label i jobs)
AllConsistent-insert label i jobs c all l j h = elim (Bool-cases (str_eq label l)) [
  | inl e ↦
      let at : some i ≡ some j = rw (lookup-insert, e) at h in
      let same : i ≡ j = cc in
      subst (λ k. IsConsistent k j) ((eq_iff label l).0 e) (subst (IsConsistent label) same c)
  | inr e ↦ all l j (rw (lookup-insert, e) at h)
]

Effect-AllConsistent :
    (label : String) (jobs jobs' : Jobs)
    → Effect label jobs jobs'
    → AllConsistent jobs
    → AllConsistent jobs'
Effect-AllConsistent label jobs jobs' (keeps e) all = rw e all
Effect-AllConsistent label jobs jobs' (changes i j at m e) all =
    rw e (AllConsistent-insert label j jobs (Change-IsConsistent label i j m (all label i at)) all)
Effect-AllConsistent label jobs jobs' (creates config l at e) all = rw e (
    AllConsistent-insert label (new_instance config) jobs
      (subst (λ k. IsConsistent k (new_instance config)) l (new_instance-IsConsistent config)) all)

Steps-AllConsistent : (s t : System) → Steps s t → AllConsistent s.jobs → AllConsistent t.jobs
Steps-AllConsistent s t here all = all
Steps-AllConsistent s u (next {t} r b n e) all = rw e (
    Effect-AllConsistent (label_of b) t.jobs _
      (Leaves-at _ (run_block b t) (run_block-Effect b t) n) (Steps-AllConsistent s t r all))

-- After any blocks of any tasks, in any order, on a manager that started with no jobs, every job is
-- consistent: it stands under its own label; if running it has a process, a start time and a monitor
-- task; if stopped it has no process; if in backoff it has no process and a time to wait for; and it
-- is not in the state Restarting.
pub Steps-IsConsistent :
    (t : System) (label : String) (i : JobInstance)
    → Steps empty_system t
    → lookup label t.jobs ≡ some i
    → IsConsistent label i
unfolding lookup
Steps-IsConsistent t label i r = Steps-AllConsistent empty_system t r (λ l j h. cc) label i
