-- ===== src/Job/Validator.antt =====
-- src/job/validator.rs: ConfigValidator, the stricter checks of `validate_file`.
pub mod Checks
pub mod Laws
use Prim.Native.String.{len}
use nusa_launchd.Shared.{
  ℕ, String, Bool, true, false, not, ◌||◌, Option, none, some, List, [], ◌∷◌, ltb, ◌==◌,
}
use nusa_launchd.Text.{is_empty, trim, any_char, contains, starts_with, concat}
use nusa_launchd.Util.{NusaError, Result, ok, err, ◌>>=◌, ◌>>◌}
use nusa_launchd.Job.Config.{
  JobConfig, SupervisionConfig, EnvironmentVar, Files, from_file, reject_if,
}

-- Slash, backslash, colon, star, question mark, double quote, less, greater, bar.
abbrev pub invalid_chars : List ℕ
invalid_chars = b'/' ∷ b'\\' ∷ b':' ∷ b'*' ∷ b'?' ∷ b'"' ∷ b'<' ∷ b'>' ∷ b'|' ∷ []

unfoldable pub elem : List ℕ → ℕ → Bool
elem [] c = false
elem (k ∷ ks) c = k == c || elem ks c

-- Path::is_absolute on Unix.
unfoldable pub is_absolute : String → Bool
is_absolute path = starts_with b'/' path

unfoldable pub validate_label : String → Result NusaError Unit
validate_label label = do
  reject_if (is_empty (trim label)) "Label cannot be empty"
  reject_if (any_char (elem invalid_chars) label)
      (concat ("Label contains invalid characters: " ∷ label ∷ []))
  reject_if (ltb 256 (len label)) "Label too long (max 256 characters)"
  ok tt

unfoldable pub validate_program_path : String → Result NusaError Unit
validate_program_path path = do
  reject_if (is_empty path) "Program path cannot be empty"
  reject_if (not (is_absolute path)) (concat ("Program path must be absolute: " ∷ path ∷ []))
  ok tt

unfoldable pub validate_working_directory : String → Result NusaError Unit
validate_working_directory path = do
  reject_if (not (is_absolute path)) (concat ("Working directory must be absolute: " ∷ path ∷ []))
  ok tt

unfoldable pub validate_variable : EnvironmentVar → Result NusaError Unit
validate_variable env = do
  reject_if (is_empty (trim env.key)) "Environment variable key cannot be empty"
  reject_if (contains b'=' env.key || contains 0 env.key)
      (concat ("Invalid environment variable key: " ∷ env.key ∷ []))
  ok tt

unfoldable pub validate_environment : List EnvironmentVar → Result NusaError Unit
unfolding validate_variable
validate_environment [] = ok tt
validate_environment (env ∷ rest) = do validate_variable env; validate_environment rest

unfoldable pub validate_supervision : SupervisionConfig → Result NusaError Unit
validate_supervision s = do
  reject_if (ltb 3600 s.restart_delay_sec) "Restart delay too long (max 3600 seconds)"
  ok tt

-- The check inside `if let Some(working_dir)`.
unfoldable pub validate_optional_directory : Option String → Result NusaError Unit
unfolding validate_working_directory
validate_optional_directory none = ok tt
validate_optional_directory (some dir) = validate_working_directory dir

unfoldable pub validate : JobConfig → Result NusaError Unit
unfolding validate_label validate_program_path validate_optional_directory validate_environment
    validate_supervision
validate c = do
  validate_label c.label
  validate_program_path c.program.path
  validate_optional_directory c.working_directory
  validate_environment c.environment
  validate_supervision c.supervision
  ok tt

unfoldable pub validate_file : Files → String → Result NusaError JobConfig
validate_file fs path = do c ← from_file fs path; validate c; ok c
