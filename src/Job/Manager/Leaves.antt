-- ===== src/Job/Manager/Leaves.antt =====
-- What a task leaves in the map of jobs, by the way in which the task is built.
use nusa_launchd.Shared.{refl, ◌≢◌}
use nusa_launchd.Util.{NusaError}
use nusa_launchd.Job.State.{System, JobEvent, RestartRequest}
use nusa_launchd.Task.{
  Task, Channels, Answer, taken, closed, full, bind, ignored, deliver, Outcome, done, fails, waits,
  panics,
}
use nusa_launchd.Event.{send}
use nusa_launchd.Job.Manager.{request}
use nusa_launchd.Job.Manager.Changes.{Jobs}

-- What holds of the map after a block, unless the program has panicked.
abbrev pub Leaves {ℓ} : {A : Type 0} → (Jobs → Type ℓ) → Outcome A × System → Type ℓ
Leaves P (done a, s) = P s.jobs
Leaves P (fails e, s) = P s.jobs
Leaves P (waits, s) = P s.jobs
Leaves P (panics, s) = Unit

module _ {ℓ} (P : Jobs → Type ℓ) where
  pub bind-Leaves :
      {A B : Type 0} (r : Outcome A × System) (f : A → Task B)
      → Leaves P r
      → ((a : A) (t : System) → P t.jobs → Leaves P (f a t))
      → Leaves P (bind r f)
  bind-Leaves (done a, t) f p k = k a t p
  bind-Leaves (fails e, t) f p k = p
  bind-Leaves (waits, t) f p k = p
  bind-Leaves (panics, t) f p k = tt

  pub deliver-Leaves :
      (a : Answer) (e : NusaError) (f : System → System) (s : System)
      → P s.jobs
      → P (f s).jobs
      → Leaves P (deliver a e f s)
  deliver-Leaves taken e f s p q = q
  deliver-Leaves closed e f s p q = p
  deliver-Leaves full e f s p q = p

  pub ignore-Leaves : (r : Outcome Unit × System) → Leaves P r → Leaves P (ignored r)
  ignore-Leaves (done a, t) p = p
  ignore-Leaves (fails e, t) p = p
  ignore-Leaves (waits, t) p = p
  ignore-Leaves (panics, t) p = tt

  pub send-Leaves : (ch : Channels) (e : JobEvent) (s : System) → P s.jobs → Leaves P (send ch e s)
  unfolding send
  send-Leaves ch e s p = deliver-Leaves (ch.to_event e) _ _ s p p

  pub request-Leaves :
      (ch : Channels) (r : RestartRequest) (s : System) → P s.jobs → Leaves P (request ch r s)
  unfolding request
  request-Leaves ch r s p = deliver-Leaves (ch.to_request r) _ _ s p p

  pub Leaves-at : {A : Type 0} (r : Outcome A × System) → Leaves P r → r.0 ≢ panics → P r.1.jobs
  Leaves-at (done a, t) p n = p
  Leaves-at (fails e, t) p n = p
  Leaves-at (waits, t) p n = p
  Leaves-at (panics, t) p n = absurd (n refl)
