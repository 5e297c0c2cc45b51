-- ===== src/Job/Supervisor/Ready.antt =====
-- get_ready_jobs: the loop with removals takes out the jobs that are due, in their order.
use nusa_launchd.Shared.{
  ℕ, zero, suc, ◌<◌, ◌≡◌, refl, ap, ◌∙◌, sym, String, true, false, not, none, some, List, [], ◌∷◌,
  ◌++◌, map, retain, length, arith, Bool-cases, inl, inr,
}
use mathlib.Core.List.{append-nil, append_assoc}
use nusa_launchd.Dict.{remove}
use nusa_launchd.Job.Supervisor.{
  RestartJob, BackoffInfo, JobSupervisor, get_elem?, remove_at, is_due, ready_loop, get_ready_jobs,
}

abbrev pub labels : List RestartJob → List String
labels = map (λ (j : RestartJob). j.label)

unfoldable pub due : ℕ → List RestartJob → List RestartJob
due now q = retain (is_due now) q

unfoldable pub later : ℕ → List RestartJob → List RestartJob
later now q = retain (λ j. not (is_due now j)) q

unfoldable pub remove_all : List String → List (String × BackoffInfo) → List (String × BackoffInfo)
remove_all [] t = t
remove_all (l ∷ ls) t = remove_all ls (remove l t)

module _ {ℓ} {A : Type ℓ} where
  get_elem?-end : (pre : List A) → get_elem? pre (length pre) ≡ none
  unfolding get_elem?
  get_elem?-end [] = refl
  get_elem?-end (x ∷ pre) = get_elem?-end pre

  get_elem?-middle : (pre rest : List A) (x : A) → get_elem? (pre ++ x ∷ rest) (length pre) ≡ some x
  unfolding get_elem?
  get_elem?-middle [] rest x = refl
  get_elem?-middle (y ∷ pre) rest x = get_elem?-middle pre rest x

  remove_at-middle :
      (pre rest : List A) (x : A) → remove_at (pre ++ x ∷ rest) (length pre) ≡ pre ++ rest
  unfolding remove_at
  remove_at-middle [] rest x = refl
  remove_at-middle (y ∷ pre) rest x = ap (◌∷◌ y) (remove_at-middle pre rest x)

length-snoc {ℓ} : {A : Type ℓ} (xs : List A) (x : A) → length (xs ++ x ∷ []) ≡ suc (length xs)
length-snoc [] x = refl
length-snoc (y ∷ xs) x = ap suc (length-snoc xs x)

module _ (fuel now i : ℕ) (s : JobSupervisor) (ready : List String) where
  ready_loop-end :
      get_elem? s.restart_queue i ≡ none → ready_loop (suc fuel) now i s ready ≡ some (s, ready)
  unfolding ready_loop
  ready_loop-end e = ground arith

  ready_loop-due :
      (job : RestartJob)
      → get_elem? s.restart_queue i ≡ some job
      → is_due now job ≡ true
      → ready_loop (suc fuel) now i s ready
        ≡ ready_loop fuel now i
            (record {
              restart_queue = remove_at s.restart_queue i;
              backoff_tracker = remove job.label s.backoff_tracker;
            })
            (ready ++ job.label ∷ [])
  unfolding ready_loop
  ready_loop-due job e d = ground arith

  ready_loop-later :
      (job : RestartJob)
      → get_elem? s.restart_queue i ≡ some job
      → is_due now job ≡ false
      → ready_loop (suc fuel) now i s ready ≡ ready_loop fuel now (suc i) s ready
  unfolding ready_loop
  ready_loop-later job e d = ground arith

abbrev before : List RestartJob → List RestartJob → List (String × BackoffInfo) → JobSupervisor
before pre rest t = record { restart_queue = pre ++ rest; backoff_tracker = t }

abbrev after : List RestartJob → List RestartJob → List (String × BackoffInfo) → ℕ → JobSupervisor
after pre rest t now = record {
  restart_queue = pre ++ later now rest;
  backoff_tracker = remove_all (labels (due now rest)) t;
}

-- The loop at the index behind `pre`, with the fuel for one round more than the jobs left.
ready_loop_lem :
    (now : ℕ) (rest pre : List RestartJob) (t : List (String × BackoffInfo)) (ready : List String)
    (fuel : ℕ)
    → length rest < fuel
    → ready_loop fuel now (length pre) (before pre rest t) ready
      ≡ some (after pre rest t now, ready ++ labels (due now rest))
unfolding due later retain remove_all
ready_loop_lem now rest pre t ready zero h = elim h [ ]
ready_loop_lem now [] pre t ready (suc fuel) h =
    ready_loop-end fuel now (length pre) (before pre [] t) ready (rw append-nil (get_elem?-end pre))
    ∙ ap (λ (r : List String). some (before pre [] t, r)) (sym (append-nil ready))
ready_loop_lem now (x ∷ rest) pre t ready (suc fuel) h = elim (Bool-cases (is_due now x)) [
  | inl e ↦ rw (
    ready_loop-due fuel now (length pre) (before pre (x ∷ rest) t) ready x
        (get_elem?-middle pre rest x) e,
    remove_at-middle pre rest x,
    ready_loop_lem now rest pre (remove x.label t) (ready ++ x.label ∷ []) fuel (omega arith),
    e,
    append_assoc,
  )
  | inr e ↦
      rw
        (
          ready_loop-later fuel now (length pre) (before pre (x ∷ rest) t) ready x
              (get_elem?-middle pre rest x) e,
          e,
        )
        (simp (append_assoc, length-snoc) at
          (ready_loop_lem now rest (pre ++ x ∷ []) t ready fuel (omega arith)))
]

-- get_ready_jobs always finishes. It returns the labels of the jobs due at `now` in the order of the
-- queue, keeps the other jobs in their order, and takes the returned labels out of the tracker.
pub get_ready_jobs_lem :
    (now : ℕ) (s : JobSupervisor)
    → get_ready_jobs now s
      ≡ some (
        record {
          restart_queue = later now s.restart_queue;
          backoff_tracker = remove_all (labels (due now s.restart_queue)) s.backoff_tracker;
        },
        labels (due now s.restart_queue),
      )
unfolding get_ready_jobs
get_ready_jobs_lem now s =
    ready_loop_lem now s.restart_queue [] s.backoff_tracker [] (suc (length s.restart_queue))
      (omega arith)
