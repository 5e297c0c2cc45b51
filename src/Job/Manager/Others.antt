-- ===== src/Job/Manager/Others.antt =====
-- What the other tasks of the runtime do to the manager while one task goes on: a schedule is the list
-- of the blocks that they run meanwhile, in their order.
use nusa_launchd.Shared.{◌≡◌, ◌≢◌, refl, ◌⊎◌, inl, inr, List, [], ◌∷◌}
use nusa_launchd.Job.State.{System}
use nusa_launchd.Task.{Task, Outcome, done, fails, waits, panics, ◌>>◌, pure}
use nusa_launchd.Job.Manager.Blocks.{Block, run_block, Steps, here, next}

-- A block of another task: its error or its wait is that task's own, a panic ends the program. A block
-- that waits with the lock is taken to give it back before the next one: Backlog says when it does not.
abbrev pub aside : Outcome Unit × System → Outcome Unit × System
aside (done u, s) = (done tt, s)
aside (fails e, s) = (done tt, s)
aside (waits, s) = (done tt, s)
aside (panics, s) = (panics, s)

unfoldable pub run_others : List Block → Task Unit
run_others [] = pure tt
run_others (b ∷ bs) = (λ s. aside (run_block b s)) >> run_others bs

-- Either a block of the schedule panics, or the schedule is a run of blocks to a manager.
pub record Ran (bs : List Block) (s : System) : Type 0 where
  pub after : System
  pub runs : run_others bs s ≡ (done tt, after)
  pub steps : Steps s after

pub before_Steps : (s t u : System) → Steps s t → Steps t u → Steps s u
before_Steps s t _ m here = m
before_Steps s t u m (next r b n e) = next (before_Steps s t _ m r) b n e

pub run_others_cases : (bs : List Block) (s : System) → ((run_others bs s).0 ≡ panics) ⊎ Ran bs s
unfolding run_others
run_others_cases [] s = inr (record { after = s; runs = refl; steps = here })
run_others_cases (b ∷ bs) s = split (run_block b s) refl (run_others_cases bs)
  where
    onward :
        (o : Outcome Unit) (t : System)
        → run_block b s ≡ (o, t)
        → o ≢ panics
        → aside (o, t) ≡ (done tt, t)
        → ((run_others bs t).0 ≡ panics) ⊎ Ran bs t
        → ((run_others (b ∷ bs) s).0 ≡ panics) ⊎ Ran (b ∷ bs) s
    onward o t e n a (inl p) = inl (rw (e, a) p)
    onward o t e n a (inr r) = inr (record {
      after = r.after;
      runs = rw (e, a) r.runs;
      steps = before_Steps s t r.after (next here b (rw e n) (rw e refl)) r.steps;
    })

    split :
        (r : Outcome Unit × System)
        → run_block b s ≡ r
        → ((t : System) → ((run_others bs t).0 ≡ panics) ⊎ Ran bs t)
        → ((run_others (b ∷ bs) s).0 ≡ panics) ⊎ Ran (b ∷ bs) s
    split (panics, t) e rest = inl (rw e refl)
    split (done u, t) e rest = onward (done u) t e (λ p. cc) refl (rest t)
    split (fails x, t) e rest = onward (fails x) t e (λ p. cc) refl (rest t)
    split (waits, t) e rest = onward waits t e (λ p. cc) refl (rest t)
