-- ===== src/Job/Config/Laws.antt =====
-- What the checks of JobConfig::validate and JobConfig::from_file accept and refuse.
use nusa_launchd.Shared.{
  String, ◌≡◌, refl, ◌≢◌, ◌↔◌, inl, inr, true, false, ◌||◌, arith, Bool-cases, ◌⊎◌, subst,
  false_iff,
}
use nusa_launchd.Text.{is_empty, trim, contains, Occurs, IsBlank}
use nusa_launchd.Text.Laws.{contains_iff, is_empty-trim}
use nusa_launchd.Util.{
  config, validation, NusaError, Result, ok, err, map_err-eq-ok, >>=-eq-ok, >>-eq-ok,
}
use nusa_launchd.Job.Config.{JobConfig, RawJob, Files, read_job, validate, from_file}

-- The error of a check that fails.
abbrev pub refused : {A : Type 0} → String → Result NusaError A
refused m = err (config (validation m))

-- A configuration that JobConfig::validate lets through.
pub record IsAcceptable (c : JobConfig) : Type 0 where
  pub labelled : ¬ IsBlank c.label
  pub has_program : c.program.path ≢ ""
  pub no_slash : ¬ Occurs b'/' c.label
  pub no_backslash : ¬ Occurs b'\\' c.label

pub is_empty_iff : (s : String) → (is_empty s ≡ true) ↔ (s ≡ "")
is_empty_iff String.[] = (λ h. refl, λ h. refl)
is_empty_iff (String.◌∷◌ c s) = (λ h. cc, λ h. cc)

-- Both separators at once, as the code tests them.
separators_iff :
    (s : String)
    → ((contains b'/' s || contains b'\\' s) ≡ false)
      ↔ ((contains b'/' s ≡ false) × (contains b'\\' s ≡ false))
separators_iff s = (λ h. ground arith, λ h. ground arith)

-- JobConfig::validate returns Ok exactly on a configuration whose label has a character that is no
-- white space and no path separator, and whose program path is not empty.
pub validate_iff : (c : JobConfig) → (validate c ≡ ok tt) ↔ IsAcceptable c
unfolding validate
validate_iff c = (to, from)
  where
    blank : (is_empty (trim c.label) ≡ false) ↔ (¬ IsBlank c.label)
    blank = false_iff _ (is_empty-trim c.label)

    bare : (is_empty c.program.path ≡ false) ↔ (c.program.path ≢ "")
    bare = false_iff _ (is_empty_iff c.program.path)

    slash : (contains b'/' c.label ≡ false) ↔ (¬ Occurs b'/' c.label)
    slash = false_iff _ (contains_iff b'/' c.label)

    backslash : (contains b'\\' c.label ≡ false) ↔ (¬ Occurs b'\\' c.label)
    backslash = false_iff _ (contains_iff b'\\' c.label)

    to : validate c ≡ ok tt → IsAcceptable c
    to h = record {
      labelled = blank.0 (ground arith);
      has_program = bare.0 (ground arith);
      no_slash = slash.0 (ground arith);
      no_backslash = backslash.0 (ground arith);
    }

    from : IsAcceptable c → validate c ≡ ok tt
    from a =
        rw
          (blank.1 a.labelled, bare.1 a.has_program, slash.1 a.no_slash, backslash.1 a.no_backslash)

-- How JobConfig::validate can answer.
pub data Verdict (c : JobConfig) (r : Result NusaError Unit) : Type 0 where
  accepted : IsAcceptable c → r ≡ ok tt → Verdict c r
  blank_label : IsBlank c.label → r ≡ refused "Label cannot be empty" → Verdict c r
  no_program :
      (¬ IsBlank c.label)
      → c.program.path ≡ ""
      → r ≡ refused "Program path cannot be empty"
      → Verdict c r
  separator :
      (¬ IsBlank c.label)
      → c.program.path ≢ ""
      → Occurs b'/' c.label ⊎ Occurs b'\\' c.label
      → r ≡ refused "Label cannot contain path separators"
      → Verdict c r

-- Every configuration is accepted, or refused by the first check that it fails and with that check's
-- message: a blank label, then an empty program path, then a path separator in the label.
pub validate-Verdict : (c : JobConfig) → Verdict c (validate c)
unfolding validate
validate-Verdict c = elim (Bool-cases (is_empty (trim c.label))) [
  | inl e ↦ blank_label ((is_empty-trim c.label).0 e) (rw e)
  | inr e ↦ elim (Bool-cases (is_empty c.program.path)) [
    | inl f ↦
        no_program ((false_iff _ (is_empty-trim c.label)).0 e) ((is_empty_iff c.program.path).0 f)
          (rw (e, f))
    | inr f ↦ elim (Bool-cases (contains b'/' c.label)) [
      | inl g ↦
          separator ((false_iff _ (is_empty-trim c.label)).0 e)
            ((false_iff _ (is_empty_iff c.program.path)).0 f)
            (inl ((contains_iff b'/' c.label).0 g)) (rw (e, f, g))
      | inr g ↦ elim (Bool-cases (contains b'\\' c.label)) [
        | inl k ↦
            separator ((false_iff _ (is_empty-trim c.label)).0 e)
              ((false_iff _ (is_empty_iff c.program.path)).0 f)
              (inr ((contains_iff b'\\' c.label).0 k)) (rw (e, f, g, k))
        | inr k ↦ let r : validate c ≡ ok tt = rw (e, f, g, k) in accepted ((validate_iff c).0 r) r
      ]
    ]
  ]
]

-- The files and the document behind a configuration that was loaded.
pub record LoadsFrom (fs : Files) (path : String) (c : JobConfig) : Type 0 where
  pub content : String
  pub raw : RawJob
  pub present : fs.exists path ≡ true
  pub read : fs.read_to_string path ≡ ok content
  pub parsed : fs.from_str content ≡ ok raw
  pub filled : c ≡ read_job raw
  pub acceptable : IsAcceptable c

loaded :
    (fs : Files) (path : String) (c : JobConfig)
    → fs.exists path ≡ true
    → from_file fs path ≡ ok c
    → LoadsFrom fs path c
unfolding from_file
loaded fs path c e h =
    let (content, r, h₁) = >>=-eq-ok _ _ (rw e at h) in
    let (raw, p, h₂) = >>=-eq-ok _ _ h₁ in
    let (v, h₃) = >>-eq-ok (validate (read_job raw)) (ok (read_job raw)) h₂ in
    record {
      content = content;
      raw = raw;
      present = e;
      read = map_err-eq-ok _ _ r;
      parsed = map_err-eq-ok _ _ p;
      filled = cc;
      acceptable = subst IsAcceptable (cc) ((validate_iff (read_job raw)).0 v);
    }

-- JobConfig::from_file succeeds with `c` exactly when the path exists, its text is read and parsed,
-- `c` is the document with the defaults filled in, and `c` is acceptable.
pub from_file_iff :
    (fs : Files) (path : String) (c : JobConfig) → (from_file fs path ≡ ok c) ↔ LoadsFrom fs path c
unfolding from_file
from_file_iff fs path c = (
  λ h. elim (Bool-cases (fs.exists path)) [
    | inl e ↦ loaded fs path c e h
    | inr e ↦ let absent : err _ ≡ ok c = rw e at h in cc
  ],
  λ l.
      let v : validate (read_job l.raw) ≡ ok tt =
        (validate_iff (read_job l.raw)).1 (subst IsAcceptable l.filled l.acceptable) in
      rw (l.present, l.read, l.parsed, v, l.filled),
)
