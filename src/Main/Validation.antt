-- ===== src/Main/Validation.antt =====
-- src/main.rs: validate_config. The i32 counters do not overflow: a directory has fewer than 2 ^ 31
-- entries.
use nusa_launchd.Shared.{ℕ, ◌+◌, String, Bool, true, false, ◌&&◌, List, [], ◌∷◌, ltb, if◌then◌else◌}
use nusa_launchd.Text.{concat, decimal}
use nusa_launchd.Util.{NusaError, system, display, Result, ok, err}
use nusa_launchd.Job.Config.{JobConfig, Files, from_file}
use nusa_launchd.Main.Program.{Run, ◌>>=◌, ◌>>◌, pure, fail, print_line}
use nusa_launchd.Main.Directory.{Host, is_toml}

pub record Tally : Type 0 where
  pub valid : ℕ
  pub invalid : ℕ

-- The line that reports on one file of a directory.
unfoldable pub report : String → Result NusaError JobConfig → String
unfolding display
report path (ok c) = concat ("✓ " ∷ path ∷ ": " ∷ c.label ∷ [])
report path (err e) = concat ("✗ " ∷ path ∷ ": " ∷ display e ∷ [])

abbrev pub tallied : Result NusaError JobConfig → Tally → Tally
tallied (ok c) t = record t { valid = t.valid + 1 }
tallied (err e) t = record t { invalid = t.invalid + 1 }

unfoldable pub validate_entry : String → Result NusaError JobConfig → Tally → Run Tally
validate_entry path r t = do print_line (report path r); pure (tallied r t)

-- The loop over the entries.
unfoldable pub validate_entries : Files → List (Result String String) → Tally → Run Tally
unfolding validate_entry
validate_entries fs [] t = pure t
validate_entries fs (err e ∷ entries) t = validate_entries fs entries t
validate_entries fs (ok path ∷ entries) t = do
  t' ← if is_toml path then validate_entry path (from_file fs path) t else pure t
  validate_entries fs entries t'

abbrev pub no_files : Tally
no_files = record { valid = 0; invalid = 0 }

unfoldable pub summary : Tally → String
unfolding decimal
summary t =
    concat (
      "\nValidation complete: "
      ∷ decimal t.valid
      ∷ " valid, "
      ∷ decimal t.invalid
      ∷ " invalid"
      ∷ [])

-- The branch for a directory, once it is read.
unfoldable pub validate_directory :
    Files → Bool → Result String (List (Result String String)) → Run Unit
unfolding validate_entries
validate_directory fs strict (err e) = fail (system e)
validate_directory fs strict (ok entries) = do
  t ← validate_entries fs entries no_files
  print_line (summary t)
  if strict && ltb 0 t.invalid then fail (system "Strict validation failed") else pure tt

abbrev display_bool : Bool → String
display_bool true = "true"
display_bool false = "false"

-- The branch for a single file. A warning of JobConfig::validate goes to the log within from_file and
-- does not reach this code, so `strict` only concerns a file that from_file refuses.
unfoldable pub validate_single : Bool → Result NusaError JobConfig → Run Unit
unfolding display
validate_single strict (ok c) = do
  print_line "✓ Configuration is valid"
  print_line (concat ("  Label: " ∷ c.label ∷ []))
  print_line (concat ("  Program: " ∷ c.program.path ∷ []))
  print_line (concat ("  Supervision: keep_alive=" ∷ display_bool c.supervision.keep_alive ∷ []))
validate_single strict (err e) = do
  print_line (concat ("✗ Configuration is invalid: " ∷ display e ∷ []))
  if strict then fail e else pure tt

unfoldable pub validate_config : Host → String → Bool → Run Unit
unfolding validate_directory validate_single
validate_config host path strict =
    if host.is_dir path
    then validate_directory host.files strict (host.read_dir path)
    else validate_single strict (from_file host.files path)
