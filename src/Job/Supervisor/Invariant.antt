-- ===== src/Job/Supervisor/Invariant.antt =====
-- What every call of the supervisor keeps: the queue is sorted by time, and each label in the
-- tracker has a restart in the queue.
use text.Mathlib.Text.{◌==◌ as str_eq}
use text.Mathlib.TextEquality.{eq_iff}
use nusa_launchd.Shared.{
  ℕ, ◌≤◌, ◌≡◌, ◌⊎◌, inl, inr, String, Bool, false_iff, some, List, [], ◌∷◌, All-retain, retain,
  arith, Bool-cases,
}
use nusa_launchd.Dict.{lookup, remove, lookup-remove}
use nusa_launchd.Job.Supervisor.{RestartJob, BackoffInfo, JobSupervisor}
use nusa_launchd.Job.Supervisor.Queue.{IsSorted, insert_after}
use nusa_launchd.Job.Supervisor.Ready.{labels, due, later, remove_all}

-- A restart for the label stands in the queue.
abbrev pub Queued : String → List RestartJob → Type 0
Queued l [] = ⊥
Queued l (j ∷ q) = (j.label ≡ l) ⊎ Queued l q

-- The label stands in the list.
abbrev pub Listed : String → List String → Type 0
Listed l [] = ⊥
Listed l (k ∷ ls) = (k ≡ l) ⊎ Listed l ls

pub record IsWellFormed (s : JobSupervisor) : Type 0 where
  pub sorted : IsSorted s.restart_queue
  pub tracked :
      (l : String) (info : BackoffInfo)
      → lookup l s.backoff_tracker ≡ some info
      → Queued l s.restart_queue

pub Queued-insert_after :
    (l : String) (j : RestartJob) (q : List RestartJob)
    → (j.label ≡ l) ⊎ Queued l q
    → Queued l (insert_after j q)
unfolding insert_after
Queued-insert_after l j [] h = h
Queued-insert_after l j (k ∷ q) h = ground (arith, Queued-insert_after l j q)

pub IsSorted-retain :
    (p : RestartJob → Bool) (q : List RestartJob) → IsSorted q → IsSorted (retain p q)
unfolding retain
IsSorted-retain p [] s = tt
IsSorted-retain p (j ∷ q) s = ground (
  arith,
  IsSorted-retain p q s.1,
  All-retain (λ (k : RestartJob). j.scheduled_at ≤ k.scheduled_at) p q s.0,
)

pub lookup-remove_all :
    (l : String) (info : BackoffInfo) (ls : List String) (t : List (String × BackoffInfo))
    → lookup l (remove_all ls t) ≡ some info
    → (lookup l t ≡ some info) × (¬ Listed l ls)
unfolding remove_all
lookup-remove_all l info [] t h = (h, λ m. m)
lookup-remove_all l info (k ∷ ls) t h =
    let (e, n) = lookup-remove_all l info ls (remove k t) h in
    let e' = rw lookup-remove at e in
    elim (Bool-cases (str_eq k l)) [
      | inl p ↦ ground arith
      | inr p ↦
          (ground arith, λ m. elim m [ inl m ↦ (false_iff _ (eq_iff k l)).0 p m | inr m ↦ n m ])
    ]

pub Queued-later :
    (l : String) (now : ℕ) (q : List RestartJob)
    → Queued l q
    → ¬ Listed l (labels (due now q))
    → Queued l (later now q)
unfolding due later retain
Queued-later l now [] h n = h
Queued-later l now (j ∷ q) h n = ground (arith, Queued-later l now q)
