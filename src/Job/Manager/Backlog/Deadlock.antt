-- ===== src/Job/Manager/Backlog/Deadlock.antt =====
-- When the restart channel comes to a halt.
use nusa_launchd.Shared.{
  ℕ, zero, suc, ◌+◌, ◌*◌, ◌≤◌, ◌<◌, ◌≡◌, refl, ◌⊎◌, inl, inr, Option, none, some, List, [], ◌∷◌,
  length, length-append, arith,
}
use nusa_launchd.Job.State.{System, JobEvent, RestartRequest, job_restart_scheduled}
use nusa_launchd.Task.{Channels, Answer, done}
use nusa_launchd.Event.{send}
use nusa_launchd.Job.Manager.{handle_restart_request}
use nusa_launchd.Job.Manager.Delay.{serves_one}
use nusa_launchd.Job.Manager.Backlog.{
  capacity, RestartTask, receiving, sleeping, locking, Backlog, empty, Goes, resumes, receives,
  wakes, serves, Drains, drains, sent, in_flight,
}

-- Each step that goes on by itself brings the requests nearer to their end.
task_work : RestartTask → ℕ
task_work receiving = 0
task_work (sleeping r) = 2
task_work (locking r) = 1

work : Backlog → ℕ
unfolding task_work
work b = 3 * length b.queue + 4 * sent b.sender + task_work b.task

Goes-less :
    (ch : Channels) (b c : Backlog) → Goes ch b c → (work c < work b) × (in_flight c ≤ in_flight b)
unfolding work task_work
Goes-less ch b _ (resumes r e l a) =
    let n = length-append b.queue (r ∷ []) in rw (e, n) (omega arith, omega arith)
Goes-less ch b _ (receives r rs e q) = rw (e, q) (omega arith, omega arith)
Goes-less ch b _ (wakes r e) = rw e (omega arith, omega arith)
Goes-less ch b _ (serves r e f a) = rw e (omega arith, omega arith)

module _ (ch : Channels) (takes : (e : JobEvent) → ch.to_event e ≡ Answer.taken) where
  announced :
      (r : RestartRequest) (count : ℕ) (s : System)
      → (send ch (job_restart_scheduled r.label r.delay count) s).0 ≡ done tt
  unfolding send
  announced r count s = rw (takes (job_restart_scheduled r.label r.delay count)) refl

  served : (r : RestartRequest) (s : System) → (handle_restart_request ch r s).0 ≡ done tt
  served r s = let (t, e, _) = serves_one ch takes r s in rw e refl

  progress :
      (q : List RestartRequest) (s : Option RestartRequest) (t : RestartTask)
      → let b : Backlog = record { queue = q; sender = s; task = t } in
        in_flight b ≤ capacity + 1 → ((c : Backlog) × Goes ch b c) ⊎ (b ≡ empty)
  progress q s (sleeping r) h = inl (_, wakes r refl)
  progress [] none receiving h = inr refl
  progress (r ∷ q) s receiving h = inl (_, receives r q refl refl)
  progress [] (some r) receiving h = inl (_, resumes r refl (omega arith) (announced r))
  progress q none (locking r) h = inl (_, serves r refl refl (served r))
  progress q (some r) (locking r') h = inl (_, resumes r refl (omega arith) (announced r))

  drain : (fuel : ℕ) (b : Backlog) → work b ≤ fuel → in_flight b ≤ capacity + 1 → Drains ch b
  drain zero b w h =
      drains (progress b.queue b.sender b.task h)
        (λ c g. let (l, f) = Goes-less ch b c g in absurd (omega arith))
  drain (suc fuel) b w h =
      drains (progress b.queue b.sender b.task h)
        (λ c g. let (l, f) = Goes-less ch b c g in drain fuel c (omega arith) (omega arith))

  -- Where the event channel takes every event, up to 51 requests that are under way are all served if
  -- no other process exits meanwhile: however the restart task and the waiting sender go on, after
  -- finitely many steps the channel is empty, no sender waits with the lock, and the task waits for
  -- the next request. A step that serves a request has a handle_restart_request that ends, and one
  -- that gives the lock back has an announcement of the restart that ends.
  pub in_flight-Drains : (b : Backlog) → in_flight b ≤ capacity + 1 → Drains ch b
  in_flight-Drains b h = drain (work b) b (omega arith) h
