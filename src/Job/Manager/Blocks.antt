-- ===== src/Job/Manager/Blocks.antt =====
-- The tasks of the manager as an interleaving of the blocks that they run under the write lock.
use nusa_launchd.Shared.{ℕ, String, Bool, Option, ◌≡◌, ◌≢◌}
use nusa_launchd.Shared.Int.{ℤ}
use nusa_launchd.Util.{NusaError}
use nusa_launchd.Job.Config.{JobConfig}
use nusa_launchd.Job.State.{System, JobState, JoinHandle, RestartRequest}
use nusa_launchd.Task.{Task, Channels, ◌>>=◌, pure, panics}
use nusa_launchd.Job.Manager.{
  load_job, begin_start, commit_start, abort_start, begin_stop, finish_stop, handle_process_exit,
  handle_restart_request,
}

-- A block, with the arguments and the answers that it runs with.
pub data Block : Type 0 where
  loads : Channels → JobConfig → Block
  begins_start : ℕ → String → Block
  commits_start : Channels → ℕ → String → ℕ → JoinHandle → Block
  aborts_start : String → NusaError → Block
  begins_stop : String → Block
  finishes_stop : Channels → String → JobState → Block
  exits : Channels → ℕ → String → ℤ → Option ℤ → Bool → Block
  restarts : Channels → RestartRequest → Block

unfoldable pub run_block : Block → Task Unit
run_block (loads ch config) = load_job ch config
run_block (begins_start now label) = do c ← begin_start now label; pure tt
run_block (commits_start ch now label pid h) = commit_start ch now label pid h
run_block (aborts_start label e) = abort_start label e
run_block (begins_stop label) = do stop ← begin_stop label; pure tt
run_block (finishes_stop ch label previous) = finish_stop ch label previous
run_block (exits ch now label code signal needed) =
    handle_process_exit ch now label code signal needed
run_block (restarts ch r) = handle_restart_request ch r

-- The job that a block is about.
abbrev pub label_of : Block → String
label_of (loads ch config) = config.label
label_of (begins_start now label) = label
label_of (commits_start ch now label pid h) = label
label_of (aborts_start label e) = label
label_of (begins_stop label) = label
label_of (finishes_stop ch label previous) = label
label_of (exits ch now label code signal needed) = label
label_of (restarts ch r) = r.label

-- Any blocks in any order. Nothing follows a panic. A block that waits at a channel has made its
-- writes to the map already.
pub data Steps (s : System) : System → Type 0 where
  here : Steps s s
  next :
      {t u : System}
      → Steps s t
      → (b : Block) → (run_block b t).0 ≢ panics
      → u ≡ (run_block b t).1
      → Steps s u
