-- ===== src/Job/Manager/Booted.antt =====
-- A job that start_job is called on for the first time: before, and after.
use nusa_launchd.Shared.{
  ℕ, ◌≡◌, refl, sym, subst, ◌∙◌, Option, none, some, [], ◌∷◌, inl, inr, ◌⊎◌, ◌≢◌,
}
use nusa_launchd.Text.{concat}
use nusa_launchd.Util.{NusaError, display, ok}
use nusa_launchd.Job.Config.{JobConfig}
use nusa_launchd.Job.State.{JobInstance, running, failed}
use nusa_launchd.Process.Spawner.{Os, build_command}
use nusa_launchd.Process.Spawner.Laws.{monitor, SpawnFails}
use nusa_launchd.Job.Manager.{new_instance}
use nusa_launchd.Job.Manager.Start.{started, IsStartable}

-- A job after its first start: it runs in the process that was spawned, or has failed with the error.
pub data Booted (os : Os) (c : JobConfig) : JobInstance → Type 0 where
  runs :
      (pid now : ℕ)
      → os.spawn (build_command os c) ≡ ok (some pid)
      → Booted os c (started (new_instance c) pid now (monitor c pid))
  fails :
      (x : NusaError)
      → SpawnFails os c x
      → Booted os c (record (new_instance c) {
        state = failed (concat ("Failed to start: " ∷ display x ∷ []));
      })

pub record IsBooted (os : Os) (c : JobConfig) (o : Option JobInstance) : Type 0 where
  pub job : JobInstance
  pub present : o ≡ some job
  pub booted : Booted os c job

-- A job before or after its first start.
pub record IsPending (os : Os) (c : JobConfig) (o : Option JobInstance) : Type 0 where
  pub job : JobInstance
  pub present : o ≡ some job
  pub pending : (job ≡ new_instance c) ⊎ Booted os c job

pub pending_started :
    (os : Os) (c : JobConfig) (i : JobInstance) (pid now : ℕ)
    → i.state ≢ running
    → (i ≡ new_instance c) ⊎ Booted os c i
    → os.spawn (build_command os i.config) ≡ ok (some pid)
    → Booted os c (started i pid now (monitor i.config pid))
unfolding new_instance
pending_started os c i pid now n (inl e) o = rw e (runs pid now (rw e at o))
pending_started os c _ pid now n (inr (runs pid' now' o')) o = absurd (n refl)
pending_started os c _ pid now n (inr (fails x f)) o = runs pid now o

pub pending_failed :
    (os : Os) (c : JobConfig) (i : JobInstance) (x : NusaError)
    → i.state ≢ running
    → (i ≡ new_instance c) ⊎ Booted os c i
    → SpawnFails os i.config x
    → Booted os c (record i {
      state = failed (concat ("Failed to start: " ∷ display x ∷ []));
      backoff_until = none;
    })
unfolding new_instance
pending_failed os c i x n (inl e) o = rw e (fails x (rw e at o))
pending_failed os c _ x n (inr (runs pid' now' o')) o = absurd (n refl)
pending_failed os c _ x n (inr (fails y f)) o = fails x o

pub pending_running :
    (os : Os) (c : JobConfig) (i : JobInstance) (now : ℕ)
    → (¬ IsStartable i now)
    → (i ≡ new_instance c) ⊎ Booted os c i
    → Booted os c i
unfolding new_instance
pending_running os c i now n (inr b) = b
pending_running os c i now n (inl e) =
    absurd (
      n (rw e (record { not_running = λ p. cc; not_starting = λ p. cc; waited = λ until p u. cc })))

pub pending_at :
    (os : Os) (c : JobConfig) (i : JobInstance) (o : Option JobInstance)
    → o ≡ some i
    → IsPending os c o
    → (i ≡ new_instance c) ⊎ Booted os c i
pending_at os c i o e p =
    let q : p.job ≡ i = cc (sym p.present ∙ e) in
    subst (λ j. (j ≡ new_instance c) ⊎ Booted os c j) q p.pending
