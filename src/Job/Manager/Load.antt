-- ===== src/Job/Manager/Load.antt =====
-- What a whole call of load_job does.
use mathlib.Core.List.{append-nil}
use nusa_launchd.Shared.{
  ◌≡◌, refl, none, some, [], ◌∷◌, ◌++◌, Bool-cases, Option-cases, inl, inr, if◌then◌else◌,
}
use nusa_launchd.Dict.{lookup, insert}
use nusa_launchd.Text.{concat}
use nusa_launchd.Util.{job_exists, system}
use nusa_launchd.Job.Config.{JobConfig}
use nusa_launchd.Job.State.{System, JobInstance, job_loaded}
use nusa_launchd.Task.{Channels, Answer, taken, closed, full, Outcome, done, fails, waits}
use nusa_launchd.Event.{send}
use nusa_launchd.Job.Manager.{load_job, load_new, new_instance}

module _ (ch : Channels) (config : JobConfig) (s : System) where
  abbrev pub inserted : System
  inserted = record s { jobs = insert config.label (new_instance config) s.jobs }

  -- How a call of load_job can end.
  pub data LoadAnswer (r : Outcome Unit × System) : Type 0 where
    exists :
        (i : JobInstance)
        → lookup config.label s.jobs ≡ some i
        → r ≡ (fails (job_exists config.label), s)
        → LoadAnswer r
    loads :
        lookup config.label s.jobs ≡ none
        → ch.to_event (job_loaded config.label) ≡ taken
        → r ≡ (
          done tt,
          record inserted {
            events = s.events ++ job_loaded config.label ∷ [];
            start_tasks =
                s.start_tasks ++ (if config.supervision.keep_alive then config.label ∷ [] else []);
          },
        )
        → LoadAnswer r
    unheard :
        lookup config.label s.jobs ≡ none
        → ch.to_event (job_loaded config.label) ≡ closed
        → r ≡ (fails (system (concat ("Failed to send event: " ∷ ch.send_error ∷ []))), inserted)
        → LoadAnswer r
    stalls :
        lookup config.label s.jobs ≡ none
        → ch.to_event (job_loaded config.label) ≡ full
        → r ≡ (waits, inserted)
        → LoadAnswer r

  load_new_cases :
      lookup config.label s.jobs ≡ none
      → (a : Answer) → ch.to_event (job_loaded config.label) ≡ a
      → LoadAnswer (load_job ch config s)
  unfolding load_job load_new send
  load_new_cases e closed a = unheard e a (rw (e, a))
  load_new_cases e full a = stalls e a (rw (e, a))
  load_new_cases e taken a = elim (Bool-cases config.supervision.keep_alive) [
    | inl k ↦ loads e a (rw (e, a, k))
    | inr k ↦ loads e a (rw (e, a, k, append-nil))
  ]

  -- Every call of load_job. On a label that is loaded already it returns JobExists and changes
  -- nothing. Otherwise the job is in the map as a new Stopped job; where the event is taken, the call
  -- returns Ok and a start of the job is spawned exactly if it is to be kept alive; where the channel
  -- is closed or full, the call returns an error or waits, with the job in the map all the same.
  pub load_job_cases : LoadAnswer (load_job ch config s)
  unfolding load_job load_new
  load_job_cases = elim (Option-cases (lookup config.label s.jobs)) [
    | inl e ↦ load_new_cases e (ch.to_event (job_loaded config.label)) refl
    | inr (i, e) ↦ exists i e (rw e)
  ]
