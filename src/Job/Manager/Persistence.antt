-- ===== src/Job/Manager/Persistence.antt =====
-- What no block can change: a job stays loaded with its configuration, and other jobs are untouched.
use text.Mathlib.Text.{◌==◌ as str_eq}
use text.Mathlib.TextEquality.{eq_iff}
use text.Mathlib.TextPositions.{eq_refl}
use nusa_launchd.Shared.{
  ◌∙◌, false_iff, ℕ, String, ◌≡◌, ◌≢◌, sym, ap, false, none, some, Bool-cases, inl, inr,
}
use nusa_launchd.Dict.{lookup, lookup-insert}
use nusa_launchd.Util.{NusaError}
use nusa_launchd.Job.Config.{JobConfig}
use nusa_launchd.Job.State.{System, JobState, JobInstance, JoinHandle, JobEvent}
use nusa_launchd.Task.{Channels, Answer, taken, closed, full, deliver, panics}
use nusa_launchd.Event.{send}
use nusa_launchd.Job.Manager.{commit_start, abort_start, finish_stop}
use nusa_launchd.Job.Manager.Blocks.{Block, run_block, label_of, Steps, here, next}
use nusa_launchd.Job.Manager.Changes.{
  Jobs, Change, start_begins, start_succeeds, start_fails, stop_begins, stop_ends, exit_stops,
  exit_gives_up, exit_backs_off, delay_ends, Effect, keeps, changes, creates,
}
use nusa_launchd.Job.Manager.Leaves.{Leaves-at}
use nusa_launchd.Job.Manager.Refines.{run_block-Effect}

Change-config : (i j : JobInstance) → Change i j → j.config ≡ i.config
Change-config i j (start_begins now m e) = rw e
Change-config i j (start_succeeds pid now h e) = rw e
Change-config i j (start_fails reason e) = rw e
Change-config i j (stop_begins e) = rw e
Change-config i j (stop_ends e) = rw e
Change-config i j (exit_stops code signal e) = rw e
Change-config i j (exit_gives_up code signal reason l m e) = rw e
Change-config i j (exit_backs_off code signal until l e) = rw e
Change-config i j (delay_ends m e) = rw e

-- The label is loaded with the configuration.
pub record Loaded (label : String) (config : JobConfig) (jobs : Jobs) : Type 0 where
  pub instance_of : JobInstance
  pub present : lookup label jobs ≡ some instance_of
  pub configured : instance_of.config ≡ config

Effect-frame :
    (label other : String) (jobs jobs' : Jobs)
    → Effect label jobs jobs'
    → str_eq label other ≡ false
    → lookup other jobs' ≡ lookup other jobs
Effect-frame label other jobs jobs' (keeps e) n = rw e
Effect-frame label other jobs jobs' (changes i j at m e) n = rw (e, lookup-insert, n)
Effect-frame label other jobs jobs' (creates config l at e) n = rw (e, lookup-insert, n)

Effect-Loaded :
    (label other : String) (config : JobConfig) (jobs jobs' : Jobs)
    → Effect label jobs jobs'
    → Loaded other config jobs
    → Loaded other config jobs'
Effect-Loaded label other config jobs jobs' f l = elim (Bool-cases (str_eq label other)) [
  | inl same ↦ at_label ((eq_iff label other).0 same) f
  | inr n ↦ record {
    instance_of = l.instance_of;
    present = Effect-frame label other jobs jobs' f n ∙ l.present;
    configured = l.configured;
  }
]
  where
    at_label : label ≡ other → Effect label jobs jobs' → Loaded other config jobs'
    at_label same (keeps e) = rw e l
    at_label same (changes i j at m e) = record {
      instance_of = j;
      present = rw (e, same, lookup-insert, eq_refl other);
      configured =
          let here : some i ≡ some l.instance_of = sym at ∙ rw same l.present in
          let p : i ≡ l.instance_of = cc in
          Change-config i j m ∙ ap (λ (k : JobInstance). k.config) p ∙ l.configured;
    }
    at_label same (creates c k at e) =
        let absent : none ≡ some l.instance_of = sym at ∙ rw same l.present in cc

-- A block that does not panic leaves every job but the one that it is about as it was.
pub run_block_frame :
    (b : Block) (s : System) (other : String)
    → label_of b ≢ other
    → (run_block b s).0 ≢ panics
    → lookup other (run_block b s).1.jobs ≡ lookup other s.jobs
run_block_frame b s other n ok =
    Effect-frame (label_of b) other s.jobs _ (Leaves-at _ (run_block b s) (run_block-Effect b s) ok)
      ((false_iff _ (eq_iff (label_of b) other)).1 n)

-- A job that is loaded stays loaded, with the configuration that it was loaded with, through any
-- blocks of any tasks in any order.
pub Steps-Loaded :
    (label : String) (config : JobConfig) (s t : System)
    → Steps s t
    → Loaded label config s.jobs
    → Loaded label config t.jobs
Steps-Loaded label config s t here l = l
Steps-Loaded label config s u (next {t} r b n e) l = rw e (
    Effect-Loaded (label_of b) label config t.jobs _
      (Leaves-at _ (run_block b t) (run_block-Effect b t) n) (Steps-Loaded label config s t r l))

deliver-ne-panics :
    (a : Answer) (e : NusaError) (f : System → System) (s : System) → (deliver a e f s).0 ≢ panics
deliver-ne-panics taken e f s p = cc
deliver-ne-panics closed e f s p = cc
deliver-ne-panics full e f s p = cc

pub send-ne-panics : (ch : Channels) (e : JobEvent) (s : System) → (send ch e s).0 ≢ panics
unfolding send
send-ne-panics ch e s = deliver-ne-panics (ch.to_event e) _ _ s

-- start_job and stop_job release the lock between their blocks and then unwrap the job again. Once
-- the job is loaded, whatever blocks run in between, none of these unwraps panics.
pub unwraps-ne-panics :
    (ch : Channels) (now pid : ℕ) (handle : JoinHandle) (err : NusaError) (previous : JobState)
    (label : String) (config : JobConfig) (s t : System)
    → Loaded label config s.jobs
    → Steps s t
    → ((commit_start ch now label pid handle t).0 ≢ panics)
      × ((abort_start label err t).0 ≢ panics)
      × ((finish_stop ch label previous t).0 ≢ panics)
unfolding commit_start abort_start finish_stop
unwraps-ne-panics ch now pid handle err previous label config s t l r =
    let e = (Steps-Loaded label config s t r l).present in
    (rw e (send-ne-panics ch _ _), rw e (λ p. cc), rw e (send-ne-panics ch _ _))
