-- ===== src/Job/Supervisor/Ticks.antt =====
-- start_restart_processor: what polling the queue again and again comes to.
use mathlib.Core.List.{append-nil, map-append}
use nusa_launchd.Shared.{ℕ, ◌≤◌, ◌≡◌, refl, String, List, [], ◌∷◌, ◌++◌, All, retain, arith}
use nusa_launchd.Dict.{remove}
use nusa_launchd.Job.Supervisor.{
  RestartJob, BackoffInfo, JobSupervisor, is_due, get_ready_jobs, restart_processor,
}
use nusa_launchd.Job.Supervisor.Queue.{IsSorted}
use nusa_launchd.Job.Supervisor.Ready.{labels, due, later, remove_all, get_ready_jobs_lem}
use nusa_launchd.Job.Supervisor.Invariant.{IsSorted-retain}
use nusa_launchd.Job.Supervisor.Effects.{due_none}

later-later : (m n : ℕ) (q : List RestartJob) → m ≤ n → later n (later m q) ≡ later n q
unfolding later retain is_due
later-later m n [] h = refl
later-later m n (j ∷ q) h = ground (arith, later-later m n q h)

due-due :
    (m n : ℕ) (q : List RestartJob) → m ≤ n → IsSorted q → due m q ++ due n (later m q) ≡ due n q
unfolding due later retain is_due
due-due m n [] h s = refl
due-due m n (j ∷ q) h s = ground (arith, due-due m n q h s.1, due_none m j.scheduled_at q)

remove_all-append :
    (ls ks : List String) (t : List (String × BackoffInfo))
    → remove_all ks (remove_all ls t) ≡ remove_all (ls ++ ks) t
unfolding remove_all
remove_all-append [] ks t = refl
remove_all-append (l ∷ ls) ks t = remove_all-append ls ks (remove l t)

pub IsSorted-later : (now : ℕ) (q : List RestartJob) → IsSorted q → IsSorted (later now q)
unfolding later
IsSorted-later now q s = IsSorted-retain _ q s

-- The supervisor after one poll at the given time, and the labels that the poll returns.
abbrev pub polled : ℕ → JobSupervisor → JobSupervisor
polled now s = record {
  restart_queue = later now s.restart_queue;
  backoff_tracker = remove_all (labels (due now s.restart_queue)) s.backoff_tracker;
}

polled_twice :
    (m n : ℕ) (s : JobSupervisor)
    → m ≤ n
    → IsSorted s.restart_queue
    → (polled n (polled m s) ≡ polled n s)
      × (labels (due m s.restart_queue) ++ labels (due n (later m s.restart_queue))
          ≡ labels (due n s.restart_queue))
polled_twice m n s h sorted =
    let q = s.restart_queue in
    let e : labels (due m q) ++ labels (due n (later m q)) ≡ labels (due n q) =
      rw (← due-due m n q h sorted, map-append) in
    (rw (later-later m n q h, remove_all-append, e), e)

-- On a sorted queue, a run of start_restart_processor over ticks that end at `last` and are not later
-- than it comes to one poll at `last`: it logs the same labels in the same order and leaves the same
-- queue and tracker, whatever the ticks between.
pub restart_processor_lem :
    (ticks : List ℕ) (last : ℕ) (s : JobSupervisor)
    → All (λ t. t ≤ last) ticks
    → IsSorted s.restart_queue
    → restart_processor (ticks ++ last ∷ []) s ≡ get_ready_jobs last s
unfolding restart_processor
restart_processor_lem [] last s h sorted = rw (get_ready_jobs_lem last s, append-nil)
restart_processor_lem (t ∷ ticks) last s h sorted =
    let (e, l) = polled_twice t last s h.0 sorted in
    rw (
      get_ready_jobs_lem t s,
      restart_processor_lem ticks last (polled t s) h.1 (IsSorted-later t s.restart_queue sorted),
      get_ready_jobs_lem last (polled t s),
      get_ready_jobs_lem last s,
      e,
      l,
    )
