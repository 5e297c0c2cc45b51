-- ===== src/Main/Loads.antt =====
-- What load_jobs_from_directory is to do: the configurations in a directory, and what loading them one
-- after the other makes of the manager.
use text.Mathlib.Text.{◌==◌ as str_eq}
use text.Mathlib.TextEquality.{eq_iff}
use nusa_launchd.Shared.{
  ℕ, ◌+◌, ◌≡◌, refl, String, Bool, false, ◌||◌, Option, none, some, List, [], ◌∷◌, ◌++◌, length,
  arith, if◌then◌else◌,
}
use nusa_launchd.Util.{Result, ok, err}
use nusa_launchd.Dict.{listed, lookup, insert, lookup-insert}
use nusa_launchd.Job.Config.{JobConfig, Files, from_file}
use nusa_launchd.Job.State.{System, JobInstance}
use nusa_launchd.Job.Manager.{new_instance}
use nusa_launchd.Job.Manager.Changes.{Jobs}
use nusa_launchd.Main.Directory.{is_toml}

-- The configurations that the entries of a directory hold, in their order.
unfoldable pub configs : Files → List (Result String String) → List JobConfig
configs fs [] = []
configs fs (err e ∷ entries) = configs fs entries
configs fs (ok path ∷ entries) =
    let rest = configs fs entries in
    if is_toml path then elim (from_file fs path) [ ok c ↦ c ∷ rest | err e ↦ rest ] else rest

-- The number of entries that are TOML files.
unfoldable pub toml_files : List (Result String String) → ℕ
toml_files [] = 0
toml_files (err e ∷ entries) = toml_files entries
toml_files (ok path ∷ entries) = (if is_toml path then 1 else 0) + toml_files entries

-- The first configuration with the label.
unfoldable pub first_config : String → List JobConfig → Option JobConfig
first_config label [] = none
first_config label (c ∷ cs) =
    let rest = first_config label cs in if str_eq c.label label then some c else rest

-- The job under a label: one that was there stays, and else the first configuration makes it.
abbrev pub settled_job : Option JobInstance → Option JobConfig → Option JobInstance
settled_job (some i) o = some i
settled_job none none = none
settled_job none (some c) = some (new_instance c)

-- Is a start of the label spawned?
abbrev pub spawned_start : Option JobInstance → Option JobConfig → Bool
spawned_start (some i) o = false
spawned_start none none = false
spawned_start none (some c) = c.supervision.keep_alive

listed-append :
    (label : String) (ls ks : List String)
    → listed label (ls ++ ks) ≡ (listed label ls || listed label ks)
unfolding listed
listed-append label [] ks = refl
listed-append label (l ∷ ls) ks = ground (arith, listed-append label ls ks)

length-insert_absent :
    (label : String) (i : JobInstance) (jobs : Jobs)
    → lookup label jobs ≡ none
    → length (insert label i jobs) ≡ length jobs + 1
unfolding lookup insert
length-insert_absent label i [] h = omega arith
length-insert_absent label i (p ∷ jobs) h = ground (arith, length-insert_absent label i jobs)

-- What loading configurations one after the other does to the manager.
pub record Loads (cs : List JobConfig) (n : ℕ) (s t : System) : Type 0 where
  pub jobs_of :
      (label : String)
      → lookup label t.jobs ≡ settled_job (lookup label s.jobs) (first_config label cs)
  pub size : length t.jobs ≡ length s.jobs + n
  pub starts :
      (label : String)
      → listed label t.start_tasks ≡ (
          listed label s.start_tasks || spawned_start (lookup label s.jobs) (first_config label cs))

pub Loads-nil : (s : System) → Loads [] 0 s s
unfolding first_config
Loads-nil s = record {
  jobs_of = λ label. elim (lookup label s.jobs) as (λ o. o ≡ settled_job o none) [
    | none ↦ refl
    | some i ↦ refl
  ];
  size = omega arith;
  starts = λ label. ground arith;
}

pub Loads-present :
    (c : JobConfig) (i : JobInstance) (s : System)
    → lookup c.label s.jobs ≡ some i
    → Loads (c ∷ []) 0 s s
unfolding first_config
Loads-present c i s e = record {
  jobs_of = λ label. ground (arith, eq_iff c.label label);
  size = omega arith;
  starts = λ label. ground (arith, eq_iff c.label label);
}

pub Loads-absent :
    (c : JobConfig) (s t : System)
    → lookup c.label s.jobs ≡ none
    → t.jobs ≡ insert c.label (new_instance c) s.jobs
    → t.start_tasks ≡ s.start_tasks ++ (if c.supervision.keep_alive then c.label ∷ [] else [])
    → Loads (c ∷ []) 1 s t
unfolding first_config listed
Loads-absent c s t e j st = record {
  jobs_of = λ label. rw (j, lookup-insert) (ground (arith, eq_iff c.label label));
  size = rw j (length-insert_absent c.label (new_instance c) s.jobs e);
  starts = λ label. rw (st, listed-append) (ground (arith, eq_iff c.label label));
}

pub Loads-cons :
    (c : JobConfig) (cs : List JobConfig) (m n : ℕ) (s t u : System)
    → Loads (c ∷ []) m s t
    → Loads cs n t u
    → Loads (c ∷ cs) (m + n) s u
unfolding first_config
Loads-cons c cs m n s t u a b = record {
  jobs_of = λ label. rw (b.jobs_of label, a.jobs_of label) (ground arith);
  size = omega (arith, a.size, b.size);
  starts = λ label. rw (b.starts label, a.starts label, a.jobs_of label) (ground arith);
}
