-- ===== src/Job/Validator/Checks.antt =====
-- What each check of ConfigValidator accepts.
use Prim.Native.Char.{code}
use Prim.Native.String.{len}
use nusa_launchd.Shared.{
  ℕ, String, ◌≤◌, ◌≡◌, refl, ◌↔◌, inl, inr, true, false, Option, none, some, List, [], ◌∷◌, All,
  arith, ltb, ltb→le, ◌==◌, ==_iff, false_iff, Bool-cases, subst,
}
use nusa_launchd.Text.{is_empty, any_char, starts_with, Occurs, IsBlank}
use nusa_launchd.Text.Laws.{contains_iff, is_empty-trim, Occurs-any_char, any_char_of_Occurs}
use nusa_launchd.Util.{ok, >>-eq-ok}
use nusa_launchd.Job.Config.{JobConfig, SupervisionConfig, EnvironmentVar}
use nusa_launchd.Job.Validator.{
  invalid_chars, elem, is_absolute, validate_label, validate_program_path,
  validate_optional_directory, validate_variable, validate_environment, validate_supervision,
}

-- A path that begins with a slash.
abbrev pub IsAbsolute : String → Type 0
IsAbsolute String.[] = ⊥
IsAbsolute (String.◌∷◌ c s) = code c ≡ b'/'

pub record IsLabel (s : String) : Type 0 where
  pub not_blank : ¬ IsBlank s
  pub no_invalid : All (λ k. ¬ Occurs k s) invalid_chars
  pub short : len s ≤ 256

pub record IsVariable (env : EnvironmentVar) : Type 0 where
  pub not_blank : ¬ IsBlank env.key
  pub no_equals : ¬ Occurs b'=' env.key
  pub no_nul : ¬ Occurs 0 env.key

abbrev pub IsDirectory : Option String → Type 0
IsDirectory none = Unit
IsDirectory (some dir) = IsAbsolute dir

pub record IsValid (c : JobConfig) : Type 0 where
  pub label : IsLabel c.label
  pub program : IsAbsolute c.program.path
  pub directory : IsDirectory c.working_directory
  pub environment : All IsVariable c.environment
  pub delay : c.supervision.restart_delay_sec ≤ 3600

pub is_absolute_iff : (s : String) → (is_absolute s ≡ true) ↔ IsAbsolute s
unfolding is_absolute starts_with
is_absolute_iff String.[] = (λ h. cc, λ h. absurd h)
is_absolute_iff (String.◌∷◌ c s) = ==_iff (code c) b'/'

-- A text with none of the listed characters.
All-elem : (ks : List ℕ) (P : ℕ → Type 0) → ((k : ℕ) → elem ks k ≡ true → P k) → All P ks
unfolding elem
All-elem [] P f = tt
All-elem (k ∷ ks) P f = (f k (ground (arith)), All-elem ks P (λ j h. f j (ground arith)))

elem-All : (ks : List ℕ) (P : ℕ → Type 0) (k : ℕ) → All P ks → elem ks k ≡ true → P k
unfolding elem
elem-All [] P k a h = cc
elem-All (j ∷ ks) P k a h = elim (Bool-cases (j == k)) [
  | inl e ↦ subst P ((==_iff j k).0 e) a.0
  | inr e ↦ elem-All ks P k a.1 (ground arith)
]

no_character_iff :
    (ks : List ℕ) (s : String) → (any_char (elem ks) s ≡ false) ↔ All (λ k. ¬ Occurs k s) ks
no_character_iff ks s = (
  λ h. All-elem ks (λ k. ¬ Occurs k s) (λ k e o. cc (any_char_of_Occurs (elem ks) s k o e)),
  λ a. elim (Bool-cases (any_char (elem ks) s)) [
    | inl e ↦
        let (k, o, q) = Occurs-any_char (elem ks) s e in
        absurd (elem-All ks (λ j. ¬ Occurs j s) k a q o)
    | inr e ↦ e
  ],
)

short_iff : (n : ℕ) → (ltb 256 n ≡ false) ↔ (n ≤ 256)
short_iff n = (λ h. omega (arith, ltb→le), λ h. ground arith)

pub validate_label_iff : (s : String) → (validate_label s ≡ ok tt) ↔ IsLabel s
unfolding validate_label
validate_label_iff s = (
  λ h. record {
    not_blank = (false_iff _ (is_empty-trim s)).0 (ground arith);
    no_invalid = (no_character_iff invalid_chars s).0 (ground arith);
    short = (short_iff (len s)).0 (ground arith);
  },
  λ v. rw (
    (false_iff _ (is_empty-trim s)).1 v.not_blank,
    (no_character_iff invalid_chars s).1 v.no_invalid,
    (short_iff (len s)).1 v.short,
  ),
)

pub is_empty-IsAbsolute : (s : String) → IsAbsolute s → is_empty s ≡ false
is_empty-IsAbsolute String.[] h = absurd h
is_empty-IsAbsolute (String.◌∷◌ c s) h = refl

pub validate_program_path_iff : (s : String) → (validate_program_path s ≡ ok tt) ↔ IsAbsolute s
unfolding validate_program_path
validate_program_path_iff s = (
  λ h. (is_absolute_iff s).0 (ground arith),
  λ v. rw (is_empty-IsAbsolute s v, (is_absolute_iff s).1 v),
)

pub validate_optional_directory_iff :
    (d : Option String) → (validate_optional_directory d ≡ ok tt) ↔ IsDirectory d
unfolding validate_optional_directory
validate_optional_directory_iff none = (λ h. tt, λ h. refl)
validate_optional_directory_iff (some d) =
    (λ h. (is_absolute_iff d).0 (ground arith), λ v. rw ((is_absolute_iff d).1 v))

pub validate_variable_iff : (e : EnvironmentVar) → (validate_variable e ≡ ok tt) ↔ IsVariable e
unfolding validate_variable
validate_variable_iff e = (
  λ h. record {
    not_blank = (false_iff _ (is_empty-trim e.key)).0 (ground arith);
    no_equals = (false_iff _ (contains_iff b'=' e.key)).0 (ground arith);
    no_nul = (false_iff _ (contains_iff 0 e.key)).0 (ground arith);
  },
  λ v. rw (
    (false_iff _ (is_empty-trim e.key)).1 v.not_blank,
    (false_iff _ (contains_iff b'=' e.key)).1 v.no_equals,
    (false_iff _ (contains_iff 0 e.key)).1 v.no_nul,
  ),
)

pub validate_environment_iff :
    (es : List EnvironmentVar) → (validate_environment es ≡ ok tt) ↔ All IsVariable es
unfolding validate_environment
validate_environment_iff [] = (λ h. tt, λ h. refl)
validate_environment_iff (e ∷ es) = (
  λ h.
      let (one, rest) = >>-eq-ok (validate_variable e) (validate_environment es) h in
      ((validate_variable_iff e).0 one, (validate_environment_iff es).0 rest),
  λ v. rw ((validate_variable_iff e).1 v.0, (validate_environment_iff es).1 v.1),
)

pub validate_supervision_iff :
    (s : SupervisionConfig) → (validate_supervision s ≡ ok tt) ↔ (s.restart_delay_sec ≤ 3600)
unfolding validate_supervision
validate_supervision_iff s = (λ h. ground arith, λ h. ground arith)
