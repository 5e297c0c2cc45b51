-- ===== src/Main/Order.antt =====
-- Whether the order in which the system lists a directory matters to load_jobs_from_directory.
use text.Mathlib.Text.{◌==◌ as str_eq}
use mathlib.Core.List.{Permᴰ}
use nusa_launchd.Shared.{
  ℕ, ◌+◌, ◌≤◌, ◌≡◌, refl, ◌∙◌, String, true, Option, none, some, List, [], ◌∷◌, arith,
  if◌then◌else◌, Bool-cases, inl, inr, ◌⊎◌,
}
use nusa_launchd.Util.{NusaError, Result, ok, err}
use nusa_launchd.Dict.{listed, lookup}
use nusa_launchd.Job.Config.{JobConfig, Files, from_file}
use nusa_launchd.Job.State.{System, JobEvent}
use nusa_launchd.Task.{Channels, done, taken}
use nusa_launchd.Main.Directory.{Host, is_toml, load_jobs_from_directory}
use nusa_launchd.Main.Loads.{configs, first_config}
use nusa_launchd.Main.Loading.{load_jobs_from_directory_lem}

-- How many of the configurations have the label.
unfoldable pub labelled : String → List JobConfig → ℕ
labelled label [] = 0
labelled label (c ∷ cs) = (if str_eq c.label label then 1 else 0) + labelled label cs

-- The configuration in one entry, if it has the label.
found : Files → String → Result String String → Option JobConfig
found fs label (err e) = none
found fs label (ok path) =
    if is_toml path
    then elim (from_file fs path) [
      | ok c ↦ if str_eq c.label label then some c else none
      | err e ↦ none
    ]
    else none

first_of : Option JobConfig → Option JobConfig → Option JobConfig
first_of none o = o
first_of (some c) o = some c

many : Option JobConfig → ℕ
many none = 0
many (some c) = 1

from_file-cases :
    (fs : Files) (path : String)
    → ((c : JobConfig) × (from_file fs path ≡ ok c))
      ⊎ ((e : NusaError) × (from_file fs path ≡ err e))
from_file-cases fs path = cases (from_file fs path) refl
  where
    cases :
        (r : Result NusaError JobConfig)
        → from_file fs path ≡ r
        → ((c : JobConfig) × (from_file fs path ≡ ok c))
          ⊎ ((e : NusaError) × (from_file fs path ≡ err e))
    cases (ok c) e = inl (c, e)
    cases (err x) e = inr (x, e)

first_config-cons :
    (fs : Files) (label : String) (entry : Result String String)
    (entries : List (Result String String))
    → (first_config label (configs fs (entry ∷ entries))
        ≡ first_of (found fs label entry) (first_config label (configs fs entries)))
      × (labelled label (configs fs (entry ∷ entries))
          ≡ many (found fs label entry) + labelled label (configs fs entries))
unfolding configs first_config labelled found first_of many
first_config-cons fs label (err e) entries = (refl, omega arith)
first_config-cons fs label (ok path) entries = elim (Bool-cases (is_toml path)) [
  | inr n ↦ rw n (refl, omega arith)
  | inl y ↦ elim (from_file-cases fs path) [
    | inr (e, f) ↦ rw (y, f) (refl, omega arith)
    | inl (c, f) ↦ elim (Bool-cases (str_eq c.label label)) [
      | inl q ↦ rw (y, f, q) (refl, omega arith)
      | inr q ↦ rw (y, f, q) (refl, omega arith)
    ]
  ]
]

labelled-Perm :
    (fs : Files) (label : String) (es es' : List (Result String String))
    → Permᴰ es es'
    → labelled label (configs fs es) ≡ labelled label (configs fs es')
unfolding configs labelled
labelled-Perm fs label _ _ Permᴰ.nil = refl
labelled-Perm fs label _ _ (Permᴰ.cons {a} {b} {l₁} {l₂} e p) =
    let rest = labelled-Perm fs label l₁ l₂ p in
    rw ((first_config-cons fs label a l₁).1, (first_config-cons fs label b l₂).1, e, rest) refl
labelled-Perm fs label _ _ (Permᴰ.swap {a} {b} {a'} {b'} {l} e f) =
    rw
      (
        (first_config-cons fs label a (b ∷ l)).1,
        (first_config-cons fs label b l).1,
        (first_config-cons fs label a' (b' ∷ l)).1,
        (first_config-cons fs label b' l).1,
        e,
        f,
      )
      (omega arith)
labelled-Perm fs label _ _ (Permᴰ.trans {l₁} {l₂} {l₃} p q) =
    labelled-Perm fs label l₁ l₂ p ∙ labelled-Perm fs label l₂ l₃ q

first_of-swap :
    (a b o : Option JobConfig)
    → many a + many b ≤ 1
    → first_of a (first_of b o) ≡ first_of b (first_of a o)
unfolding first_of many
first_of-swap none b o h = refl
first_of-swap (some c) none o h = refl
first_of-swap (some c) (some d) o h = absurd (omega arith)

-- A label that one configuration has at most is looked up alike in any order.
first_config-Perm :
    (fs : Files) (label : String) (es es' : List (Result String String))
    → Permᴰ es es'
    → labelled label (configs fs es) ≤ 1
    → first_config label (configs fs es) ≡ first_config label (configs fs es')
unfolding configs first_config
first_config-Perm fs label _ _ Permᴰ.nil h = refl
first_config-Perm fs label _ _ (Permᴰ.cons {a} {b} {l₁} {l₂} e p) h =
    let few = (first_config-cons fs label a l₁).1 in
    let rest = first_config-Perm fs label l₁ l₂ p (omega (arith, few, h)) in
    rw ((first_config-cons fs label a l₁).0, (first_config-cons fs label b l₂).0, e, rest) refl
first_config-Perm fs label _ _ (Permᴰ.swap {a} {b} {a'} {b'} {l} e f) h =
    let few = (first_config-cons fs label a (b ∷ l)).1 in
    let fewer = (first_config-cons fs label b l).1 in
    let s =
      first_of-swap (found fs label a) (found fs label b) (first_config label (configs fs l))
        (omega (arith, few, fewer, h)) in
    rw
      (
        (first_config-cons fs label a (b ∷ l)).0,
        (first_config-cons fs label b l).0,
        (first_config-cons fs label a' (b' ∷ l)).0,
        (first_config-cons fs label b' l).0,
        ← e,
        ← f,
      )
      s
first_config-Perm fs label _ _ (Permᴰ.trans {l₁} {l₂} {l₃} p q) h =
    first_config-Perm fs label l₁ l₂ p h
    ∙ first_config-Perm fs label l₂ l₃ q (rw (← labelled-Perm fs label l₁ l₂ p) h)

-- The same directory, listed in two orders by two hosts that have the same files otherwise, gives the
-- same jobs and the same spawned starts for each label, where the event channel takes events, the
-- directory can be read and no label stands in two of its files.
pub load_jobs_from_directory-Perm :
    (ch : Channels) (host : Host) (dir : String) (entries entries' : List (Result String String))
    (s : System)
    → let host' = record host { read_dir = λ path. ok entries' } in
      ((e : JobEvent) → ch.to_event e ≡ taken)
      → host.files.exists dir ≡ true
      → host.read_dir dir ≡ ok entries
      → Permᴰ entries entries'
      → ((label : String) → labelled label (configs host.files entries) ≤ 1)
      → (t : System) × (t' : System) × (load_jobs_from_directory host ch dir s ≡ (done tt, t))
        × (load_jobs_from_directory host' ch dir s ≡ (done tt, t'))
        × ((label : String) → lookup label t.jobs ≡ lookup label t'.jobs)
        × ((label : String) → listed label t.start_tasks ≡ listed label t'.start_tasks)
load_jobs_from_directory-Perm ch host dir entries entries' s takes here readable p once =
    let host' : Host = record host { read_dir = λ path. ok entries' } in
    let (k, t, _, l, _, _, jobs, starts) =
      load_jobs_from_directory_lem ch takes host dir entries s here readable in
    let (k', t', _, l', _, _, jobs', starts') =
      load_jobs_from_directory_lem ch takes host' dir entries' s here refl in
    let same =
      λ (label : String). first_config-Perm host.files label entries entries' p (once label) in
    (
      t,
      t',
      l,
      l',
      λ label. rw (jobs label, jobs' label, same label) refl,
      λ label. rw (starts label, starts' label, same label) refl,
    )
