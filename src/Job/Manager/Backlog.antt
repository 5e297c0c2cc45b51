-- ===== src/Job/Manager/Backlog.antt =====
-- src/job/manager.rs: the restart channel as the bounded queue that JobManager::new makes, between
-- handle_process_exit, which sends a request while it holds the write lock of the jobs, and the
-- restart task, which takes that lock to serve a request. Both also send an event: handle_process_exit
-- with the lock still held, the restart task before it receives again. The steps that need such a
-- send to come to an end say so, of the event channel `ch`. The delay of a request passes by itself;
-- the other users of the lock hold it for one block each, and are left out.
pub mod Deadlock
pub mod Exits
use nusa_launchd.Shared.{
  ℕ, suc, ◌+◌, ◌≤◌, ◌<◌, ◌≡◌, refl, ◌≢◌, ◌↔◌, ◌⊎◌, inl, inr, Option, none, some, List, [], ◌∷◌,
  ◌++◌, length, ltb, if◌then◌else◌, length-append, arith,
}
use nusa_launchd.Job.State.{System, RestartRequest, job_restart_scheduled}
use nusa_launchd.Task.{Answer, full, Channels, done}
use nusa_launchd.Event.{send}
use nusa_launchd.Job.Manager.{handle_restart_request}

-- mpsc::channel(50).
abbrev pub capacity : ℕ
capacity = 50

-- The restart task waits for a request, for the delay of one, or for the lock.
pub data RestartTask : Type 0 where
  receiving : RestartTask
  sleeping locking : RestartRequest → RestartTask

-- `sender` is the request of a handle_process_exit that waits at the full channel, with the lock.
pub record Backlog : Type 0 where
  pub queue : List RestartRequest
  pub sender : Option RestartRequest
  pub task : RestartTask

abbrev pub empty : Backlog
empty = record { queue = []; sender = none; task = receiving }

-- What the channel answers to a send.
unfoldable pub answer : Backlog → Answer
answer b = if ltb (length b.queue) capacity then Answer.taken else full

-- What goes on without another exit of a process. A handle_process_exit that waited gives the lock
-- back when it has announced the restart, and the restart task receives again when
-- handle_restart_request has ended, whatever the jobs are by then.
pub data Goes (ch : Channels) (b : Backlog) : Backlog → Type 0 where
  resumes :
      (r : RestartRequest)
      → b.sender ≡ some r
      → length b.queue < capacity
      → ((count : ℕ) (s : System)
          → (send ch (job_restart_scheduled r.label r.delay count) s).0 ≡ done tt)
      → Goes ch b (record b { queue = b.queue ++ r ∷ []; sender = none })
  receives :
      (r : RestartRequest) (rs : List RestartRequest)
      → b.task ≡ receiving
      → b.queue ≡ r ∷ rs
      → Goes ch b (record b { queue = rs; task = sleeping r })
  wakes : (r : RestartRequest) → b.task ≡ sleeping r → Goes ch b (record b { task = locking r })
  serves :
      (r : RestartRequest)
      → b.task ≡ locking r
      → b.sender ≡ none
      → ((s : System) → (handle_restart_request ch r s).0 ≡ done tt)
      → Goes ch b (record b { task = receiving })

-- However it goes on, with no other exit, it comes to the empty backlog after finitely many steps.
pub data Drains (ch : Channels) : Backlog → Type 0 where
  drains :
      {b : Backlog}
      → ((c : Backlog) × Goes ch b c) ⊎ (b ≡ empty)
      → ((c : Backlog) → Goes ch b c → Drains ch c)
      → Drains ch b

-- Besides, a handle_process_exit that has the lock sends its request, or waits with it at the full
-- channel.
pub data Step (ch : Channels) (b : Backlog) : Backlog → Type 0 where
  goes : {c : Backlog} → Goes ch b c → Step ch b c
  sends :
      (r : RestartRequest)
      → b.sender ≡ none
      → length b.queue < capacity
      → Step ch b (record b { queue = b.queue ++ r ∷ [] })
  waits :
      (r : RestartRequest)
      → b.sender ≡ none
      → capacity ≤ length b.queue
      → Step ch b (record b { sender = some r })

pub data Steps (ch : Channels) (b : Backlog) : Backlog → Type 0 where
  here : Steps ch b b
  next : {c d : Backlog} → Steps ch b c → Step ch c d → Steps ch b d

abbrev pub sent : Option RestartRequest → ℕ
sent none = 0
sent (some r) = 1

abbrev pub taken : RestartTask → ℕ
taken receiving = 0
taken _ = 1

-- The requests that are under way.
abbrev pub in_flight : Backlog → ℕ
in_flight b = length b.queue + sent b.sender + taken b.task

-- The sender waits for room in the channel, and the restart task, which alone makes room, waits for
-- the lock that the sender holds.
pub record IsDeadlocked (b : Backlog) : Type 0 where
  pub full : capacity ≤ length b.queue
  pub waiting : RestartRequest
  pub sending : b.sender ≡ some waiting
  pub request : RestartRequest
  pub locks : b.task ≡ locking request
