-- ===== src/Job/Manager/Boot.antt =====
-- src/job/manager.rs: the starts that load_job spawns for the jobs that are to be kept alive, run one
-- after the other, and what they make of the jobs.
use text.Mathlib.Text.{◌==◌ as str_eq}
use text.Mathlib.TextEquality.{eq_iff}
use nusa_launchd.Shared.{
  ℕ, ◌≡◌, refl, ◌∙◌, String, true, false, none, List, [], ◌∷◌, ◌++◌, arith, inl, inr, Bool-cases,
}
use nusa_launchd.Text.{concat}
use nusa_launchd.Util.{display}
use nusa_launchd.Dict.{listed, lookup, insert, lookup-insert}
use nusa_launchd.Job.Config.{JobConfig}
use nusa_launchd.Job.State.{System, JobInstance, failed, JobEvent, job_started}
use nusa_launchd.Task.{Task, ◌>>◌, pure, ignore, Channels, taken, done}
use nusa_launchd.Event.{send}
use nusa_launchd.Process.Spawner.{Os}
use nusa_launchd.Process.Spawner.Laws.{monitor}
use nusa_launchd.Job.Manager.{start_job}
use nusa_launchd.Job.Manager.Start.{started, missing, refuses, starts, breaks, start_job_cases}
use nusa_launchd.Job.Manager.Booted.{
  Booted, IsBooted, IsPending, pending_started, pending_failed, pending_running, pending_at,
}

-- The spawned starts, each with its own system and its two readings of the clock, so that equal
-- commands can get different processes; their errors are only logged.
unfoldable pub start_spawned :
    (String → Os) → Channels → (String → ℕ) → (String → ℕ) → List String → Task Unit
start_spawned os ch now now' [] = pure tt
start_spawned os ch now now' (label ∷ labels) =
    ignore (start_job (os label) ch (now label) (now' label) label)
    >> start_spawned os ch now now' labels

-- What running the spawned starts of some labels leaves.
pub record Starts (os : String → Os) (labels : List String) (s t : System) : Type 0 where
  pub others :
      (label : String) → listed label labels ≡ false → lookup label t.jobs ≡ lookup label s.jobs
  pub starts :
      (label : String) (c : JobConfig)
      → listed label labels ≡ true
      → IsPending (os label) c (lookup label s.jobs)
      → IsBooted (os label) c (lookup label t.jobs)

Starts-cons :
    (os : String → Os) (label : String) (labels : List String) (s t u : System)
    → Starts os (label ∷ []) s t
    → Starts os labels t u
    → Starts os (label ∷ labels) s u
unfolding listed
Starts-cons os l labels s t u a b = record {
  others = λ label n. b.others label (ground arith) ∙ a.others label (ground arith);
  starts = λ label c y p. elim (Bool-cases (str_eq l label)) [
    | inr q ↦ b.starts label c (ground arith) (rw (a.others label (ground arith)) p)
    | inl q ↦
        let k = a.starts label c (ground arith) p in
        elim (Bool-cases (listed label labels)) [
          | inl m ↦
              b.starts label c m
                (record { job = k.job; present = k.present; pending = inr k.booted })
          | inr m ↦ rw (b.others label m) k
        ]
  ];
}

Starts-same :
    (os : String → Os) (l : String) (s : System)
    → ((c : JobConfig) → IsPending (os l) c (lookup l s.jobs) → IsBooted (os l) c (lookup l s.jobs))
    → Starts os (l ∷ []) s s
unfolding listed
Starts-same os l s h = record {
  others = λ label n. refl;
  starts =
      λ label c y p. let e : l ≡ label = ground (arith, eq_iff l label) in rw (← e) (h c (rw e p));
}

Starts-insert :
    (os : String → Os) (l : String) (j : JobInstance) (s t : System)
    → t.jobs ≡ insert l j s.jobs
    → ((c : JobConfig) → IsPending (os l) c (lookup l s.jobs) → Booted (os l) c j)
    → Starts os (l ∷ []) s t
unfolding listed
Starts-insert os l j s t e h = record {
  others = λ label n. rw (e, lookup-insert) (ground (arith, n));
  starts = λ label c y p.
      let q : l ≡ label = ground (arith, eq_iff l label) in
      rw (← q) (record {
        job = j;
        present = rw (e, lookup-insert) (ground (arith, eq_iff l l));
        booted = h c (rw q p);
      });
}

module _ (os : String → Os) (ch : Channels) (takes : (e : JobEvent) → ch.to_event e ≡ taken) where
  record StartsAll (now now' : String → ℕ) (labels : List String) (s : System) : Type 0 where
    after : System
    runs : start_spawned os ch now now' labels s ≡ (done tt, after)
    effect : Starts os labels s after

  record StartsOne (now now' : ℕ) (label : String) (s : System) : Type 0 where
    after : System
    runs : ignore (start_job (os label) ch now now' label) s ≡ (done tt, after)
    effect : Starts os (label ∷ []) s after

  start_one : (now now' : ℕ) (label : String) (s : System) → StartsOne now now' label s
  unfolding send
  start_one now now' label s = elim (start_job_cases (os label) ch now now' label s) [
    | missing e r ↦ record {
      after = s;
      runs = rw r refl;
      effect = Starts-same os label s (λ c p. let x = p.present in absurd cc);
    }
    | refuses i e n r ↦ record {
      after = s;
      runs = rw r refl;
      effect = Starts-same os label s (λ c p. record {
        job = i;
        present = e;
        booted = pending_running (os label) c i now n (pending_at (os label) c i _ e p);
      });
    }
    | starts i pid e v o r ↦
        let j = started i pid now' (monitor i.config pid) in
        record {
          after = record s {
            jobs = insert label j s.jobs;
            monitors = s.monitors ++ monitor i.config pid ∷ [];
            events = s.events ++ job_started label pid now' ∷ [];
          };
          runs = rw (r, takes (job_started label pid now')) refl;
          effect = Starts-insert os label j s _ refl (λ c p.
              pending_started (os label) c i pid now' v.not_running
                (pending_at (os label) c i _ e p) o);
        }
    | breaks i x e v o r ↦
        let j = record i {
          state = failed (concat ("Failed to start: " ∷ display x ∷ []));
          backoff_until = none;
        } in
        record {
          after = record s { jobs = insert label j s.jobs };
          runs = rw r refl;
          effect = Starts-insert os label j s _ refl (λ c p.
              pending_failed (os label) c i x v.not_running (pending_at (os label) c i _ e p) o);
        }
  ]

  start_spawned_all :
      (now now' : String → ℕ) (labels : List String) (s : System) → StartsAll now now' labels s
  unfolding start_spawned listed
  start_spawned_all now now' [] s = record {
    after = s;
    runs = refl;
    effect = record { others = λ label n. refl; starts = λ label c y p. cc };
  }
  start_spawned_all now now' (label ∷ labels) s =
      let a = start_one (now label) (now' label) label s in
      let b = start_spawned_all now now' labels a.after in
      record {
        after = b.after;
        runs = rw (a.runs, b.runs) refl;
        effect = Starts-cons os label labels s a.after b.after a.effect b.effect;
      }

  -- Where the event channel takes events, running the spawned starts of some labels one after the
  -- other, each with its own system and readings of the clock and its error dropped, comes to an end. A job whose
  -- label is among them and that has not been started before, or only so, then runs in the process
  -- that the system spawned for its configuration, or has failed with the error of the spawn; the
  -- other jobs are as they were.
  pub start_spawned_lem :
      (now now' : String → ℕ) (labels : List String) (s : System)
      → (t : System) × (start_spawned os ch now now' labels s ≡ (done tt, t))
        × ((label : String)
            → listed label labels ≡ false
            → lookup label t.jobs ≡ lookup label s.jobs)
        × ((label : String) (c : JobConfig)
            → listed label labels ≡ true
            → IsPending (os label) c (lookup label s.jobs)
            → IsBooted (os label) c (lookup label t.jobs))
  start_spawned_lem now now' labels s =
      let a = start_spawned_all now now' labels s in
      (a.after, a.runs, a.effect.others, a.effect.starts)
