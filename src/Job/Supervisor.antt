-- ===== src/Job/Supervisor.antt =====
-- src/job/supervisor.rs: the restart policy, the backoff, and the queue of scheduled restarts.
-- Each reading of the clock is an argument. The two locks are taken one after the other; a call is
-- modelled as it runs with no other call in between.
pub mod Policy
pub mod Queue
pub mod Ready
pub mod Invariant
pub mod Schedule
pub mod Runs
pub mod Effects
pub mod Defaults
pub mod Locks
pub mod Cancel
pub mod Ticks
use nusa_launchd.Shared.{
  ℕ, zero, suc, ◌+◌, ◌-◌, ◌*◌, ◌^◌, min, String, Bool, true, false, not, ◌&&◌, Option, none, some,
  List, [], ◌∷◌, ◌++◌, retain, length, ltb, leb, if◌then◌else◌, is_some,
}
use nusa_launchd.Shared.Int.{ℤ, is_zero}
use nusa_launchd.Shared.Options.{◌>>=◌}
use nusa_launchd.Time.{u32, u64, from_secs, add_duration}
use nusa_launchd.Dict.{lookup, insert, remove}
use nusa_launchd.Job.Config.{RestartPolicy, never, always, on_failure, on_crash, SupervisionConfig}
use text.Mathlib.Text.{◌==◌ as str_eq}

pub record RestartJob : Type 0 where
  pub label : String
  pub scheduled_at : ℕ
  pub attempt : ℕ

pub record BackoffInfo : Type 0 where
  pub backoff_until : ℕ
  pub attempt : ℕ

pub record JobSupervisor : Type 0 where
  pub restart_queue : List RestartJob
  pub backoff_tracker : List (String × BackoffInfo)

unfoldable pub new : JobSupervisor
new = record { restart_queue = []; backoff_tracker = [] }

-- The match on the restart policy.
unfoldable pub policy_restarts : RestartPolicy → ℤ → Option ℤ → Bool
policy_restarts always exit_code signal = true
policy_restarts never exit_code signal = false
policy_restarts on_failure exit_code signal = not (is_zero exit_code)
policy_restarts on_crash exit_code signal = is_some signal

unfoldable pub should_restart : SupervisionConfig → ℤ → Option ℤ → ℕ → Bool
unfolding policy_restarts
should_restart config exit_code signal restart_count =
    if not config.keep_alive
    then false
    else if ltb 0 config.max_restarts && leb config.max_restarts restart_count
    then false
    else policy_restarts config.restart_policy exit_code signal

unfoldable pub calculate_backoff : SupervisionConfig → ℕ → ℕ
calculate_backoff config restart_count =
    let exponent = min restart_count 6 in
    let multiplier = 2 ^ exponent in
    let backoff_secs = u64 (config.restart_delay_sec * multiplier) in
    from_secs (min backoff_secs 300)

-- A stable sort by the scheduled time, as slice::sort_by_key.
unfoldable pub insert_by_time : RestartJob → List RestartJob → List RestartJob
insert_by_time j [] = j ∷ []
insert_by_time j (k ∷ q) =
    let rest = insert_by_time j q in
    if leb j.scheduled_at k.scheduled_at then j ∷ k ∷ q else k ∷ rest

unfoldable pub sort_by_time : List RestartJob → List RestartJob
unfolding insert_by_time
sort_by_time [] = []
sort_by_time (j ∷ q) = insert_by_time j (sort_by_time q)

-- The block under the queue's lock.
unfoldable pub enqueue : RestartJob → JobSupervisor → JobSupervisor
unfolding sort_by_time
enqueue job s = record s { restart_queue = sort_by_time (s.restart_queue ++ job ∷ []) }

-- The block under the tracker's lock.
unfoldable pub track : String → BackoffInfo → JobSupervisor → JobSupervisor
track label info s = record s { backoff_tracker = insert label info s.backoff_tracker }

-- `none` is a panic of `Instant + Duration`. The clock is read once for each block.
unfoldable pub schedule_restart :
    String → SupervisionConfig → ℕ → ℕ → ℕ → JobSupervisor → Option (JobSupervisor × ℕ)
unfolding enqueue track calculate_backoff add_duration
schedule_restart label config restart_count now now' s = do
  let backoff = calculate_backoff config restart_count
  scheduled_at ← add_duration now backoff
  backoff_until ← add_duration now' backoff
  let attempt = u32 (restart_count + 1)
  let job : RestartJob = record { label = label; scheduled_at = scheduled_at; attempt = attempt }
  let info : BackoffInfo = record { backoff_until = backoff_until; attempt = attempt }
  some (track label info (enqueue job s), backoff)

-- queue[i] and queue.remove(i).
unfoldable pub get_elem? {ℓ} : {A : Type ℓ} → List A → ℕ → Option A
get_elem? [] i = none
get_elem? (x ∷ xs) zero = some x
get_elem? (x ∷ xs) (suc i) = get_elem? xs i

unfoldable pub remove_at {ℓ} : {A : Type ℓ} → List A → ℕ → List A
remove_at [] i = []
remove_at (x ∷ xs) zero = xs
remove_at (x ∷ xs) (suc i) = x ∷ remove_at xs i

unfoldable pub is_due : ℕ → RestartJob → Bool
is_due now j = leb j.scheduled_at now

-- The while loop over the index `i`; `none` means that the fuel ran out.
unfoldable pub ready_loop :
    ℕ → ℕ → ℕ → JobSupervisor → List String → Option (JobSupervisor × List String)
unfolding is_due get_elem? remove_at
ready_loop zero now i s ready = none
ready_loop (suc fuel) now i s ready =
    let taken = λ (job : RestartJob).
      ready_loop fuel now i
        (record {
          restart_queue = remove_at s.restart_queue i;
          backoff_tracker = remove job.label s.backoff_tracker;
        })
        (ready ++ job.label ∷ []) in
    let kept = ready_loop fuel now (suc i) s ready in
    elim (get_elem? s.restart_queue i) [
      | none ↦ some (s, ready)
      | some job ↦ if is_due now job then taken job else kept
    ]

unfoldable pub get_ready_jobs : ℕ → JobSupervisor → Option (JobSupervisor × List String)
unfolding ready_loop
get_ready_jobs now s = ready_loop (suc (length s.restart_queue)) now 0 s []

-- The two blocks of cancel_restart, under the queue's lock and under the tracker's.
unfoldable pub unqueue : String → JobSupervisor → JobSupervisor
unqueue label s = record s {
  restart_queue = retain (λ (j : RestartJob). not (str_eq j.label label)) s.restart_queue;
}

unfoldable pub untrack : String → JobSupervisor → JobSupervisor
untrack label s = record s { backoff_tracker = remove label s.backoff_tracker }

unfoldable pub cancel_restart : String → JobSupervisor → JobSupervisor
unfolding unqueue untrack
cancel_restart label s = untrack label (unqueue label s)

-- `now` and `now'` are the two readings of the clock; the difference of instants stops at zero.
unfoldable pub is_in_backoff : String → ℕ → ℕ → JobSupervisor → Option ℕ
is_in_backoff label now now' s = elim (lookup label s.backoff_tracker) [
  | none ↦ none
  | some info ↦ if ltb now info.backoff_until then some (info.backoff_until - now') else none
]

-- The task of start_restart_processor over the ticks that it has seen, and the labels that it has
-- logged. The labels go nowhere else.
unfoldable pub restart_processor : List ℕ → JobSupervisor → Option (JobSupervisor × List String)
restart_processor [] s = some (s, [])
restart_processor (now ∷ ticks) s = do
  (s', ready_jobs) ← get_ready_jobs now s
  (s'', later_jobs) ← restart_processor ticks s'
  some (s'', ready_jobs ++ later_jobs)
