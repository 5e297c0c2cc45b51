-- ===== src/Job/Validator/Laws.antt =====
-- What ConfigValidator accepts, and how it compares with JobConfig::validate.
use nusa_launchd.Shared.{String, ◌≡◌, ◌↔◌, false_iff, subst}
use nusa_launchd.Util.{ok, >>=-eq-ok, >>-eq-ok}
use nusa_launchd.Job.Config.{JobConfig, Files, from_file, validate as acceptable}
use nusa_launchd.Job.Config.Laws.{LoadsFrom, from_file_iff, is_empty_iff, validate_iff}
use nusa_launchd.Job.Validator.Checks.{
  IsValid, validate_label_iff, validate_program_path_iff, validate_optional_directory_iff,
  validate_environment_iff, validate_supervision_iff, is_empty-IsAbsolute,
}
use nusa_launchd.Job.Validator.{
  validate_label, validate_program_path, validate_optional_directory, validate_environment,
  validate_supervision, validate, validate_file,
}

-- ConfigValidator::validate returns Ok exactly on a valid configuration: a label with a character
-- that is no white space, none of the nine invalid characters and at most 256 bytes, an absolute
-- program path, an absolute working directory if there is one, environment keys that are not blank
-- and hold no '=' and no NUL, and a restart delay of at most 3600 seconds.
pub validator_iff : (c : JobConfig) → (validate c ≡ ok tt) ↔ IsValid c
unfolding validate
validator_iff c = (to, from)
  where
    to : validate c ≡ ok tt → IsValid c
    to h =
        let (l, h₁) = >>-eq-ok (validate_label c.label) _ h in
        let (p, h₂) = >>-eq-ok (validate_program_path c.program.path) _ h₁ in
        let (d, h₃) = >>-eq-ok (validate_optional_directory c.working_directory) _ h₂ in
        let (e, h₄) = >>-eq-ok (validate_environment c.environment) _ h₃ in
        let (s, h₅) = >>-eq-ok (validate_supervision c.supervision) _ h₄ in
        record {
          label = (validate_label_iff c.label).0 l;
          program = (validate_program_path_iff c.program.path).0 p;
          directory = (validate_optional_directory_iff c.working_directory).0 d;
          environment = (validate_environment_iff c.environment).0 e;
          delay = (validate_supervision_iff c.supervision).0 s;
        }

    from : IsValid c → validate c ≡ ok tt
    from v = rw (
      (validate_label_iff c.label).1 v.label,
      (validate_program_path_iff c.program.path).1 v.program,
      (validate_optional_directory_iff c.working_directory).1 v.directory,
      (validate_environment_iff c.environment).1 v.environment,
      (validate_supervision_iff c.supervision).1 v.delay,
    )

-- A configuration that ConfigValidator::validate accepts is accepted by JobConfig::validate too.
pub validator-stricter : (c : JobConfig) → validate c ≡ ok tt → acceptable c ≡ ok tt
validator-stricter c h =
    let v = (validator_iff c).0 h in
    (validate_iff c).1 (record {
      labelled = v.label.not_blank;
      has_program = (false_iff _ (is_empty_iff c.program.path)).0 (is_empty-IsAbsolute _ v.program);
      no_slash = v.label.no_invalid.0;
      no_backslash = v.label.no_invalid.1.0;
    })

-- validate_file succeeds with `c` exactly when from_file loads `c` from the path and `c` is valid.
pub validate_file_iff :
    (fs : Files) (path : String) (c : JobConfig)
    → (validate_file fs path ≡ ok c) ↔ (LoadsFrom fs path c × IsValid c)
unfolding validate_file
validate_file_iff fs path c = (
  λ h.
      let (d, l, h₁) = >>=-eq-ok (from_file fs path) _ h in
      let (v, h₂) = >>-eq-ok (validate d) (ok d) h₁ in
      let e : d ≡ c = cc in
      ((from_file_iff fs path c).0 (rw (← e) l), subst IsValid e ((validator_iff d).0 v)),
  λ h. rw ((from_file_iff fs path c).1 h.0, (validator_iff c).1 h.1),
)
