-- ===== src/Job/Config.antt =====
-- src/job/config.rs: the job configuration, the defaults that its serde attributes give, and the
-- checks that JobConfig::from_file makes.
pub mod Laws
use nusa_launchd.Shared.{
  ℕ, String, Bool, true, false, not, ◌||◌, Option, none, some, List, [], ◌∷◌, map, if◌then◌else◌,
}
use nusa_launchd.Text.{is_empty, trim, contains, concat}
use nusa_launchd.Util.{
  NusaError, config, parse, validation, file_not_found, Result, ok, err, ◌>>=◌, ◌>>◌, map_err,
}

pub data RestartPolicy : Type 0 where
  never always on_failure on_crash : RestartPolicy

pub record EnvironmentVar : Type 0 where
  pub key : String
  pub value : String

-- Paths are texts: a path that is not UTF-8 cannot come from a TOML file.
pub record ProgramConfig : Type 0 where
  pub path : String
  pub arguments : List String

pub record SupervisionConfig : Type 0 where
  pub keep_alive : Bool
  pub restart_policy : RestartPolicy
  pub restart_delay_sec : ℕ  -- u64
  pub max_restarts : ℕ  -- u32

pub record JobConfig : Type 0 where
  pub label : String
  pub description : Option String
  pub program : ProgramConfig
  pub supervision : SupervisionConfig
  pub environment : List EnvironmentVar
  pub working_directory : Option String

-- The fields of a document, before the defaults are filled in: `none` is an absent key.
pub record RawProgram : Type 0 where
  pub path : String
  pub arguments : Option (List String)

pub record RawSupervision : Type 0 where
  pub keep_alive : Option Bool
  pub restart_policy : Option RestartPolicy
  pub restart_delay_sec : Option ℕ
  pub max_restarts : Option ℕ

pub record RawJob : Type 0 where
  pub label : String
  pub description : Option String
  pub program : RawProgram
  pub supervision : Option RawSupervision
  pub environment : Option (List EnvironmentVar)
  pub working_directory : Option String

abbrev pub or_else {ℓ} : {A : Type ℓ} → Option A → A → A
or_else none d = d
or_else (some a) d = a

abbrev pub default_policy : RestartPolicy
default_policy = on_failure

abbrev pub default_true : Bool
default_true = true

abbrev pub default_restart_delay : ℕ
default_restart_delay = 1

abbrev pub default_max_restarts : ℕ
default_max_restarts = 5

-- The derived Default of SupervisionConfig: each field's own Default, not the serde defaults.
abbrev pub default_supervision : SupervisionConfig
default_supervision = record {
  keep_alive = false;
  restart_policy = default_policy;
  restart_delay_sec = 0;
  max_restarts = 0;
}

unfoldable pub read_supervision : Option RawSupervision → SupervisionConfig
read_supervision none = default_supervision
read_supervision (some raw) = record {
  keep_alive = or_else raw.keep_alive default_true;
  restart_policy = or_else raw.restart_policy default_policy;
  restart_delay_sec = or_else raw.restart_delay_sec default_restart_delay;
  max_restarts = or_else raw.max_restarts default_max_restarts;
}

unfoldable pub read_job : RawJob → JobConfig
unfolding read_supervision
read_job raw = record {
  label = raw.label;
  description = raw.description;
  program = record { path = raw.program.path; arguments = or_else raw.program.arguments [] };
  supervision = read_supervision raw.supervision;
  environment = or_else raw.environment [];
  working_directory = raw.working_directory;
}

-- What from_file uses of the file system and of the toml crate. A failure carries its Display.
pub record Files : Type 0 where
  pub exists : String → Bool
  pub read_to_string : String → Result String String
  pub from_str : String → Result String RawJob

abbrev pub reject_if : Bool → String → Result NusaError Unit
reject_if true m = err (config (validation m))
reject_if false m = ok tt

-- The two log lines at the end of JobConfig::validate change nothing.
unfoldable pub validate : JobConfig → Result NusaError Unit
validate c = do
  reject_if (is_empty (trim c.label)) "Label cannot be empty"
  reject_if (is_empty c.program.path) "Program path cannot be empty"
  reject_if (contains b'/' c.label || contains b'\\' c.label) "Label cannot contain path separators"
  ok tt

unfoldable pub from_file : Files → String → Result NusaError JobConfig
unfolding read_job validate
from_file fs path = if not (fs.exists path) then err (config (file_not_found path)) else do
  content ←
      map_err (λ e. config (parse (concat ("Failed to read file: " ∷ e ∷ []))))
        (fs.read_to_string path)
  raw ← map_err (λ e. config (parse (concat ("Invalid TOML: " ∷ e ∷ [])))) (fs.from_str content)
  let c = read_job raw
  validate c
  ok c

unfoldable pub get_env_vars : JobConfig → List (String × String)
get_env_vars c = map (λ (env : EnvironmentVar). (env.key, env.value)) c.environment
