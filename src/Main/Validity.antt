-- ===== src/Main/Validity.antt =====
-- Which paths validate_config accepts.
use mathlib.Core.List.{append_assoc, append-nil}
use nusa_launchd.Shared.{
  ◌+◌, ◌≡◌, refl, sym, ◌∙◌, ◌↔◌, String, Bool, true, false, ◌&&◌, List, [], ◌∷◌, ◌++◌, length,
  arith, ltb, if◌then◌else◌, Bool-cases, inl, inr,
}
use nusa_launchd.Util.{NusaError, system, Result, ok, err}
use nusa_launchd.Job.Config.{JobConfig, Files, from_file}
use nusa_launchd.Task.{done, fails}
use nusa_launchd.Main.Program.{Program, fail, pure}
use nusa_launchd.Main.Directory.{Host, is_toml}
use nusa_launchd.Main.Loads.{configs, toml_files}
use nusa_launchd.Main.Validation.{
  Tally, report, tallied, validate_entry, validate_entries, no_files, summary, validate_directory,
  validate_single, validate_config,
}

-- The lines on the TOML files of a directory, in their order.
unfoldable pub reports : Files → List (Result String String) → List String
reports fs [] = []
reports fs (err e ∷ entries) = reports fs entries
reports fs (ok path ∷ entries) =
    let rest = reports fs entries in
    if is_toml path then report path (from_file fs path) ∷ rest else rest

record Printed (fs : Files) (entries : List (Result String String)) (t : Tally) (p : Program)
    : Type 0 where
  tally : Tally
  runs :
      validate_entries fs entries t p
      ≡ (done tally, record p { lines = p.lines ++ reports fs entries })
  valid : tally.valid ≡ t.valid + length (configs fs entries)
  total : tally.valid + tally.invalid ≡ t.valid + t.invalid + toml_files entries

Printed-cons :
    (fs : Files) (path : String) (entries : List (Result String String)) (t : Tally) (p : Program)
    (r : Result NusaError JobConfig)
    → from_file fs path ≡ r
    → is_toml path ≡ true
    → ((t' : Tally) (p' : Program) → Printed fs entries t' p')
    → Printed fs (ok path ∷ entries) t p
unfolding validate_entries configs toml_files reports validate_entry
Printed-cons fs path entries t p (ok c) e y rest =
    let l = rest (tallied (ok c) t) (record p { lines = p.lines ++ report path (ok c) ∷ [] }) in
    record {
      tally = l.tally;
      runs = rw (y, e, l.runs, append_assoc) refl;
      valid = rw (y, e) (omega (arith, l.valid));
      total = rw y (omega (arith, l.total));
    }
Printed-cons fs path entries t p (err x) e y rest =
    let l = rest (tallied (err x) t) (record p { lines = p.lines ++ report path (err x) ∷ [] }) in
    record {
      tally = l.tally;
      runs = rw (y, e, l.runs, append_assoc) refl;
      valid = rw (y, e) l.valid;
      total = rw y (omega (arith, l.total));
    }

validate_entries_lem :
    (fs : Files) (entries : List (Result String String)) (t : Tally) (p : Program)
    → Printed fs entries t p
unfolding validate_entries configs toml_files reports
validate_entries_lem fs [] t p = record {
  tally = t;
  runs = rw append-nil refl;
  valid = omega arith;
  total = omega arith;
}
validate_entries_lem fs (err e ∷ entries) t p =
    let l = validate_entries_lem fs entries t p in
    record { tally = l.tally; runs = l.runs; valid = l.valid; total = l.total }
validate_entries_lem fs (ok path ∷ entries) t p = elim (Bool-cases (is_toml path)) [
  | inl y ↦
      Printed-cons fs path entries t p (from_file fs path) refl y (validate_entries_lem fs entries)
  | inr n ↦
      let l = validate_entries_lem fs entries t p in
      record {
        tally = l.tally;
        runs = rw n l.runs;
        valid = rw n l.valid;
        total = rw n (omega (arith, l.total));
      }
]

fail_or_go_on :
    (b : Bool) (e : NusaError) (p : Program)
    → (if b then fail e else pure tt) p ≡ (if b then fails e else done tt, p)
fail_or_go_on true e p = refl
fail_or_go_on false e p = refl

-- For a directory that can be read, validate_config prints one line for each entry that is a TOML
-- file, in the order of the entries, and then the summary of a tally that has those that from_file
-- loads as valid and all the others as invalid. It changes nothing else, and returns an error
-- exactly if it is strict and something is invalid. A file that only draws a warning of
-- JobConfig::validate is one that from_file loads: it counts as valid, also when strict.
pub validate_config-directory :
    (host : Host) (path : String) (strict : Bool) (entries : List (Result String String))
    (p : Program)
    → host.is_dir path ≡ true
    → host.read_dir path ≡ ok entries
    → (t : Tally) × (t.valid ≡ length (configs host.files entries))
      × (t.valid + t.invalid ≡ toml_files entries)
      × (validate_config host path strict p ≡ (
        if strict && ltb 0 t.invalid then fails (system "Strict validation failed") else done tt,
        record p { lines = p.lines ++ reports host.files entries ++ summary t ∷ [] },
      ))
unfolding validate_config validate_directory
validate_config-directory host path strict entries p d r =
    let l = validate_entries_lem host.files entries no_files p in
    (
      l.tally,
      omega (arith, l.valid),
      omega (arith, l.total),
      rw (d, r, l.runs, append_assoc) (fail_or_go_on (strict && ltb 0 l.tally.invalid) _ _),
    )

-- What validate_config asks of a path.
pub data Passes (host : Host) (path : String) (strict : Bool) : Type 0 where
  lenient_file : host.is_dir path ≡ false → strict ≡ false → Passes host path strict
  loaded_file :
      (c : JobConfig)
      → host.is_dir path ≡ false
      → from_file host.files path ≡ ok c
      → Passes host path strict
  lenient_directory :
      (entries : List (Result String String))
      → host.is_dir path ≡ true
      → host.read_dir path ≡ ok entries
      → strict ≡ false
      → Passes host path strict
  loaded_directory :
      (entries : List (Result String String))
      → host.is_dir path ≡ true
      → host.read_dir path ≡ ok entries
      → length (configs host.files entries) ≡ toml_files entries
      → Passes host path strict

Passes-file :
    (host : Host) (path : String) (strict : Bool) (p : Program) (r : Result NusaError JobConfig)
    → host.is_dir path ≡ false
    → from_file host.files path ≡ r
    → ((validate_config host path strict p).0 ≡ done tt) ↔ Passes host path strict
unfolding validate_config validate_single
Passes-file host path strict p (ok c) d f = rw (d, f) (λ h. loaded_file c d f, λ h. refl)
Passes-file host path true p (err e) d f = rw (d, f) (λ h. absurd cc, λ h. absurd (refused h))
  where
    refused : Passes host path true → ⊥
    refused (lenient_file x y) = cc
    refused (loaded_file c x y) = cc
    refused (lenient_directory es x y z) = cc
    refused (loaded_directory es x y z) = cc
Passes-file host path false p (err e) d f = (λ h. lenient_file d refl, λ h. rw (d, f) refl)

Passes-directory :
    (host : Host) (path : String) (strict : Bool) (p : Program)
    (r : Result String (List (Result String String)))
    → host.is_dir path ≡ true
    → host.read_dir path ≡ r
    → ((validate_config host path strict p).0 ≡ done tt) ↔ Passes host path strict
unfolding validate_config validate_directory
Passes-directory host path strict p (err e) d f =
    rw (d, f) (λ h. absurd cc, λ h. absurd (refused h))
  where
    refused : Passes host path strict → ⊥
    refused (lenient_file x y) = cc
    refused (loaded_file c x y) = cc
    refused (lenient_directory es x y z) = cc
    refused (loaded_directory es x y z) = cc
Passes-directory host path strict p (ok entries) d f =
    let (t, valid, total, runs) = validate_config-directory host path strict entries p d f in
    rw runs (
      λ h. elim (Bool-cases strict) [
        | inr n ↦ lenient_directory entries d f n
        | inl y ↦ loaded_directory entries d f (ground (arith, valid, total, h))
      ],
      accepted t valid total,
    )
  where
    accepted :
        (t : Tally)
        → t.valid ≡ length (configs host.files entries)
        → t.valid + t.invalid ≡ toml_files entries
        → Passes host path strict
        → (if strict && ltb 0 t.invalid then fails (system "Strict validation failed") else done tt)
          ≡ done tt
    accepted t v w (lenient_file x y) = absurd cc
    accepted t v w (loaded_file c x y) = absurd cc
    accepted t v w (lenient_directory es x y z) = rw z refl
    accepted t v w (loaded_directory es x y z) = let e = sym y ∙ f in ground (arith, v, w, z, e)

-- validate_config returns Ok exactly in four cases: on a file that from_file loads, on any file if it
-- is not strict, on a directory that can be read if it is not strict, and on a directory that can be
-- read and in which from_file loads every entry that is a TOML file. from_file loads a file that only
-- draws a warning of JobConfig::validate, so such a file passes, also when strict.
pub validate_config_iff :
    (host : Host) (path : String) (strict : Bool) (p : Program)
    → ((validate_config host path strict p).0 ≡ done tt) ↔ Passes host path strict
validate_config_iff host path strict p = elim (Bool-cases (host.is_dir path)) [
  | inl d ↦ Passes-directory host path strict p (host.read_dir path) d refl
  | inr d ↦ Passes-file host path strict p (from_file host.files path) d refl
]
