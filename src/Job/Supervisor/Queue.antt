-- ===== src/Job/Supervisor/Queue.antt =====
-- The restart queue: sorted by time, and what `queue.push` and `queue.sort_by_key` do to it.
use mathlib.Core.List.{Perm}
use mathlib.Core.List.Perm
use nusa_launchd.Shared.{
  ℕ, ◌≤◌, ◌<◌, ◌≡◌, refl, List, [], ◌∷◌, ◌++◌, All, arith, ltb, leb, leb→le, if◌then◌else◌,
  Bool-cases, inl, inr,
}
use nusa_launchd.Job.Supervisor.{RestartJob, insert_by_time, sort_by_time}

-- The earliest job stands first.
abbrev pub IsSorted : List RestartJob → Type 0
IsSorted [] = Unit
IsSorted (j ∷ q) = All (λ k. j.scheduled_at ≤ k.scheduled_at) q × IsSorted q

All-insert_by_time :
    (P : RestartJob → Type 0) (j : RestartJob) (q : List RestartJob)
    → P j
    → All P q
    → All P (insert_by_time j q)
unfolding insert_by_time
All-insert_by_time P j [] p a = (p, tt)
All-insert_by_time P j (k ∷ q) p a = ground (arith, All-insert_by_time P j q p a.1)

All-le_trans :
    (m n : ℕ) (q : List RestartJob)
    → m ≤ n
    → All (λ k. n ≤ k.scheduled_at) q
    → All (λ k. m ≤ k.scheduled_at) q
All-le_trans m n [] h a = tt
All-le_trans m n (k ∷ q) h a = (omega arith, All-le_trans m n q h a.1)

insert_by_time-IsSorted :
    (j : RestartJob) (q : List RestartJob) → IsSorted q → IsSorted (insert_by_time j q)
unfolding insert_by_time
insert_by_time-IsSorted j [] s = (tt, tt)
insert_by_time-IsSorted j (k ∷ q) s = elim (Bool-cases (leb j.scheduled_at k.scheduled_at)) [
  | inl e ↦
      rw e ((leb→le _ _ e, All-le_trans j.scheduled_at k.scheduled_at q (leb→le _ _ e) s.0), s)
  | inr e ↦ rw e (
    All-insert_by_time (λ i. k.scheduled_at ≤ i.scheduled_at) j q (ground arith) s.0,
    insert_by_time-IsSorted j q s.1,
  )
]

pub sort_by_time-IsSorted : (q : List RestartJob) → IsSorted (sort_by_time q)
unfolding sort_by_time
sort_by_time-IsSorted [] = tt
sort_by_time-IsSorted (j ∷ q) = insert_by_time-IsSorted j (sort_by_time q) (sort_by_time-IsSorted q)

insert_by_time-perm : (j : RestartJob) (q : List RestartJob) → Perm (insert_by_time j q) (j ∷ q)
unfolding insert_by_time
insert_by_time-perm j [] = Perm.rfl
insert_by_time-perm j (k ∷ q) = elim (Bool-cases (leb j.scheduled_at k.scheduled_at)) [
  | inl e ↦ rw e Perm.rfl
  | inr e ↦ rw e (Perm.trans (Perm.cons k (insert_by_time-perm j q)) (Perm.swap j k q))
]

pub sort_by_time-perm : (q : List RestartJob) → Perm (sort_by_time q) q
unfolding sort_by_time
sort_by_time-perm [] = Perm.nil
sort_by_time-perm (j ∷ q) =
    Perm.trans (insert_by_time-perm j (sort_by_time q)) (Perm.cons j (sort_by_time-perm q))

-- The job behind all those that are due no later than it.
unfoldable pub insert_after : RestartJob → List RestartJob → List RestartJob
insert_after j [] = j ∷ []
insert_after j (k ∷ q) =
    let rest = insert_after j q in if ltb j.scheduled_at k.scheduled_at then j ∷ k ∷ q else k ∷ rest

insert_by_time-least :
    (j : RestartJob) (q : List RestartJob)
    → All (λ k. j.scheduled_at ≤ k.scheduled_at) q
    → insert_by_time j q ≡ j ∷ q
unfolding insert_by_time
insert_by_time-least j [] a = refl
insert_by_time-least j (k ∷ q) a = ground arith

insert_after-least :
    (j : RestartJob) (n : ℕ) (q : List RestartJob)
    → j.scheduled_at < n
    → All (λ k. n ≤ k.scheduled_at) q
    → insert_after j q ≡ j ∷ q
unfolding insert_after
insert_after-least j n [] h a = refl
insert_after-least j n (k ∷ q) h a = ground arith

All-insert_after :
    (P : RestartJob → Type 0) (j : RestartJob) (q : List RestartJob)
    → P j
    → All P q
    → All P (insert_after j q)
unfolding insert_after
All-insert_after P j [] p a = (p, tt)
All-insert_after P j (k ∷ q) p a = ground (arith, All-insert_after P j q p a.1)

-- Pushing a job and sorting a queue that was sorted puts the job behind those due no later.
pub sort_by_time-push :
    (j : RestartJob) (q : List RestartJob)
    → IsSorted q
    → sort_by_time (q ++ j ∷ []) ≡ insert_after j q
unfolding sort_by_time insert_after
sort_by_time-push j [] s = unfold insert_by_time in refl
sort_by_time-push j (k ∷ q) s = elim (Bool-cases (ltb j.scheduled_at k.scheduled_at)) [
  | inl e ↦
      rw (e, sort_by_time-push j q s.1, insert_after-least j k.scheduled_at q (ground arith) s.0)
        (ground (arith, insert_by_time-least k q s.0))
  | inr e ↦
      rw (e, sort_by_time-push j q s.1)
        (insert_by_time-least k (insert_after j q)
          (All-insert_after (λ i. k.scheduled_at ≤ i.scheduled_at) j q (ground arith) s.0))
]
