-- ===== src/Main/Loading.antt =====
-- Which jobs load_jobs_from_directory loads.
use nusa_launchd.Shared.{
  ℕ, ◌+◌, ◌≡◌, refl, String, true, ◌||◌, List, [], ◌∷◌, ◌++◌, length, arith, if◌then◌else◌,
  Bool-cases, inl, inr,
}
use nusa_launchd.Util.{NusaError, job_exists, Result, ok, err}
use nusa_launchd.Dict.{listed, lookup}
use nusa_launchd.Job.Config.{JobConfig, Files, from_file}
use nusa_launchd.Job.State.{System, JobEvent, job_loaded}
use nusa_launchd.Job.Manager.{load_job}
use nusa_launchd.Job.Manager.Load.{exists, loads, unheard, stalls, load_job_cases, inserted}
use nusa_launchd.Task.{done, Channels, taken}
use nusa_launchd.Main.Directory.{
  Host, Counts, no_counts, load_directory, load_jobs_from_directory, tried, counted, load_entries,
  is_toml,
}
use nusa_launchd.Main.Loads.{
  configs, toml_files, first_config, settled_job, spawned_start, Loads, Loads-nil, Loads-present,
  Loads-absent, Loads-cons,
}

module _ (ch : Channels) (takes : (e : JobEvent) → ch.to_event e ≡ taken) where
  record Loaded (c : JobConfig) (s : System) : Type 0 where
    answer : Result NusaError Unit
    after : System
    number : ℕ
    runs : tried (load_job ch c s) ≡ (done answer, after)
    counts : (k : Counts) → (counted answer k).loaded ≡ k.loaded + number
    total :
        (k : Counts)
        → (counted answer k).loaded + (counted answer k).failed ≡ k.loaded + k.failed + 1
    effect : Loads (c ∷ []) number s after

  load_one : (c : JobConfig) (s : System) → Loaded c s
  load_one c s = elim (load_job_cases ch c s) [
    | exists i e r ↦ record {
      answer = err (job_exists c.label);
      after = s;
      number = 0;
      runs = rw r;
      counts = λ k. omega arith;
      total = λ k. omega arith;
      effect = Loads-present c i s e;
    }
    | loads e a r ↦ record {
      answer = ok tt;
      after = record (inserted ch c s) {
        events = s.events ++ job_loaded c.label ∷ [];
        start_tasks = s.start_tasks ++ (if c.supervision.keep_alive then c.label ∷ [] else []);
      };
      number = 1;
      runs = rw r;
      counts = λ k. omega arith;
      total = λ k. omega arith;
      effect = Loads-absent c s _ e refl refl;
    }
    | unheard e a r ↦ let x = takes (job_loaded c.label) in absurd (ground arith)
    | stalls e a r ↦ let x = takes (job_loaded c.label) in absurd (ground arith)
  ]

  -- What the loop over the entries leaves: the counts, and the manager.
  record LoadsAll (fs : Files) (entries : List (Result String String)) (k : Counts) (s : System)
      : Type 0 where
    after : System
    counts : Counts
    runs : load_entries fs ch entries k s ≡ (done counts, after)
    number : ℕ
    loaded : counts.loaded ≡ k.loaded + number
    total : counts.loaded + counts.failed ≡ k.loaded + k.failed + toml_files entries
    effect : Loads (configs fs entries) number s after

  load_file_lem :
      (fs : Files) (path : String) (entries : List (Result String String)) (k : Counts) (s : System)
      (r : Result NusaError JobConfig)
      → from_file fs path ≡ r
      → is_toml path ≡ true
      → ((k' : Counts) (s' : System) → LoadsAll fs entries k' s')
      → LoadsAll fs (ok path ∷ entries) k s
  unfolding load_entries configs toml_files
  load_file_lem fs path entries k s (err e) f t rest =
      let l = rest (record k { failed = k.failed + 1 }) s in
      record {
        after = l.after;
        counts = l.counts;
        runs = rw (t, f) l.runs;
        number = l.number;
        loaded = l.loaded;
        total = rw t (omega (arith, l.total));
        effect = rw (t, f) l.effect;
      }
  load_file_lem fs path entries k s (ok c) f t rest =
      let o = load_one c s in
      let l = rest (counted o.answer k) o.after in
      record {
        after = l.after;
        counts = l.counts;
        runs = rw (t, f, o.runs) l.runs;
        number = o.number + l.number;
        loaded = omega (arith, l.loaded, o.counts k);
        total = rw t (omega (arith, l.total, o.total k));
        effect =
            rw (t, f) (Loads-cons c (configs fs entries) _ _ s o.after l.after o.effect l.effect);
      }

  load_entries_all :
      (fs : Files) (entries : List (Result String String)) (k : Counts) (s : System)
      → LoadsAll fs entries k s
  unfolding load_entries configs toml_files
  load_entries_all fs [] k s = record {
    after = s;
    counts = k;
    runs = refl;
    number = 0;
    loaded = omega arith;
    total = omega arith;
    effect = Loads-nil s;
  }
  load_entries_all fs (err e ∷ entries) k s =
      let l = load_entries_all fs entries k s in
      record {
        after = l.after;
        counts = l.counts;
        runs = l.runs;
        number = l.number;
        loaded = l.loaded;
        total = l.total;
        effect = l.effect;
      }
  load_entries_all fs (ok path ∷ entries) k s = elim (Bool-cases (is_toml path)) [
    | inl t ↦
        load_file_lem fs path entries k s (from_file fs path) refl t (load_entries_all fs entries)
    | inr t ↦
        let l = load_entries_all fs entries k s in
        record {
          after = l.after;
          counts = l.counts;
          runs = rw t l.runs;
          number = l.number;
          loaded = l.loaded;
          total = rw t (omega (arith, l.total));
          effect = rw t l.effect;
        }
  ]

  -- Where the event channel takes events and the directory can be read, load_jobs_from_directory
  -- returns Ok. Each entry that is a TOML file is counted once, as loaded or as failed; as many jobs
  -- are added as are counted as loaded; under each label a job that was there stays, and otherwise
  -- the first configuration with the label, in the order of the entries, becomes a new job; and a
  -- start of a label is spawned, beside those before, exactly if the configuration that became a job
  -- is to be kept alive.
  pub load_jobs_from_directory_lem :
      (host : Host) (dir : String) (entries : List (Result String String)) (s : System)
      → host.files.exists dir ≡ true
      → host.read_dir dir ≡ ok entries
      → let cs = configs host.files entries in
        (k : Counts) × (t : System) × (load_directory host ch dir s ≡ (done k, t))
        × (load_jobs_from_directory host ch dir s ≡ (done tt, t))
        × (k.loaded + k.failed ≡ toml_files entries)
        × (length t.jobs ≡ length s.jobs + k.loaded)
        × ((label : String)
            → lookup label t.jobs ≡ settled_job (lookup label s.jobs) (first_config label cs))
        × ((label : String)
            → listed label t.start_tasks ≡ (
                listed label s.start_tasks
                || spawned_start (lookup label s.jobs) (first_config label cs)))
  unfolding load_jobs_from_directory load_directory
  load_jobs_from_directory_lem host dir entries s here readable =
      let l = load_entries_all host.files entries no_counts s in
      (
        l.counts,
        l.after,
        rw (here, readable) l.runs,
        rw (here, readable, l.runs),
        omega (arith, l.total),
        omega (arith, l.loaded, l.effect.size),
        l.effect.jobs_of,
        l.effect.starts,
      )
