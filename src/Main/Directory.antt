-- ===== src/Main/Directory.antt =====
-- src/main.rs: load_jobs_from_directory. Its log lines are left out; `Counts` are the two numbers of
-- the last one. A directory has fewer than 2 ^ 31 entries, so the i32 counters do not overflow.
use Prim.Native.String.{◌++◌ as append}
use Prim.Native.Char.{code}
use text.Mathlib.Text.{◌==◌ as str_eq}
use nusa_launchd.Shared.{
  ℕ, ◌+◌, ◌==◌, String, Bool, false, not, Option, none, some, List, [], ◌∷◌, if◌then◌else◌,
}
use nusa_launchd.Util.{NusaError, Result, ok, err}
use nusa_launchd.Job.Config.{JobConfig, Files, or_else, from_file}
use nusa_launchd.Job.Manager.{load_job}
use nusa_launchd.Task.{Task, Outcome, done, fails, waits, panics, ◌>>=◌, pure, Channels}

-- What main.rs uses of the file system besides the reading of one configuration. An entry of a
-- directory can fail by itself.
pub record Host : Type 0 where
  pub files : Files
  pub is_dir : String → Bool
  pub read_dir : String → Result String (List (Result String String))
  pub write : String → String → Result String Unit

-- The text after the last character with the given code point.
unfoldable pub after_last : ℕ → String → Option String
after_last k String.[] = none
after_last k (String.◌∷◌ c s) =
    let here = if code c == k then some s else none in
    elim (after_last k s) [ some rest ↦ some rest | none ↦ here ]

-- Path::extension of an entry: what follows the last dot of the file name, unless that dot is its
-- first character.
unfoldable pub extension : String → Option String
unfolding after_last
extension path =
    let name = or_else (after_last b'/' path) path in
    elim (after_last b'.' name) [
      | none ↦ none
      | some rest ↦ if str_eq name (append "." rest) then none else some rest
    ]

unfoldable pub is_toml : String → Bool
unfolding extension
is_toml path = elim (extension path) [ none ↦ false | some rest ↦ str_eq rest "toml" ]

pub record Counts : Type 0 where
  pub loaded : ℕ
  pub failed : ℕ

-- The result of a task as a value, for a caller that matches on it.
abbrev pub tried : {A S : Type 0} → Outcome A × S → Outcome (Result NusaError A) × S
tried (done a, s) = (done (ok a), s)
tried (fails e, s) = (done (err e), s)
tried (waits, s) = (waits, s)
tried (panics, s) = (panics, s)

abbrev pub counted : Result NusaError Unit → Counts → Counts
counted (ok u) c = record c { loaded = c.loaded + 1 }
counted (err e) c = record c { failed = c.failed + 1 }

-- The match on what from_file answers.
unfoldable pub load_file : Channels → Result NusaError JobConfig → Counts → Task Counts
load_file ch (ok config) c = do r ← λ s. tried (load_job ch config s); pure (counted r c)
load_file ch (err e) c = pure (record c { failed = c.failed + 1 })

-- The loop over the entries; `flatten` passes over those that fail.
unfoldable pub load_entries : Files → Channels → List (Result String String) → Counts → Task Counts
unfolding load_file is_toml
load_entries fs ch [] c = pure c
load_entries fs ch (err e ∷ entries) c = load_entries fs ch entries c
load_entries fs ch (ok path ∷ entries) c = do
  c' ← if is_toml path then load_file ch (from_file fs path) c else pure c
  load_entries fs ch entries c'

abbrev pub no_counts : Counts
no_counts = record { loaded = 0; failed = 0 }

-- The counts when the loop is over; a directory that cannot be read counts nothing.
unfoldable pub load_directory : Host → Channels → String → Task Counts
unfolding load_entries
load_directory host ch dir =
    if not (host.files.exists dir) then pure no_counts else elim (host.read_dir dir) [
      | err e ↦ pure no_counts
      | ok entries ↦ load_entries host.files ch entries no_counts
    ]

unfoldable pub load_jobs_from_directory : Host → Channels → String → Task Unit
unfolding load_directory
load_jobs_from_directory host ch dir = do counts ← load_directory host ch dir; pure tt
