-- ===== src/Task.antt =====
-- How a task of the program acts on the system: it goes on with a value, returns an error, waits at
-- a full channel, or panics. Cargo.toml sets panic = "abort", so a panic ends the whole program.
use nusa_launchd.Shared.{String}
use nusa_launchd.Util.{NusaError, Result, ok, err}
use nusa_launchd.Job.State.{System, JobEvent, RestartRequest}

pub data Outcome (A : Type 0) : Type 0 where
  done : A → Outcome A
  fails : NusaError → Outcome A
  waits : Outcome A
  panics : Outcome A

abbrev pub Task : Type 0 → Type 0
Task A = System → Outcome A × System

infixl 5 ◌>>=◌ ◌>>◌
abbrev pub bind : {A B : Type 0} → Outcome A × System → (A → Task B) → Outcome B × System
bind (done a, s) f = f a s
bind (fails e, s) f = (fails e, s)
bind (waits, s) f = (waits, s)
bind (panics, s) f = (panics, s)

abbrev pub ◌>>=◌ : {A B : Type 0} → Task A → (A → Task B) → Task B
◌>>=◌ m f s = bind (m s) f

abbrev pub ◌>>◌ : {B : Type 0} → Task Unit → Task B → Task B
◌>>◌ m k s = bind (m s) (λ _. k)

abbrev pub pure : {A : Type 0} → A → Task A
pure a s = (done a, s)

abbrev pub fail : {A : Type 0} → NusaError → Task A
fail e s = (fails e, s)

abbrev pub panic : {A : Type 0} → Task A
panic s = (panics, s)

abbrev pub modify : (System → System) → Task Unit
modify f s = (done tt, f s)

abbrev pub lift : {A : Type 0} → Result NusaError A → Task A
lift (ok a) = pure a
lift (err e) = fail e

-- `let _ = …`: an error is dropped.
abbrev pub ignored : Outcome Unit × System → Outcome Unit × System
ignored (done a, s) = (done a, s)
ignored (fails e, s) = (done tt, s)
ignored (waits, s) = (waits, s)
ignored (panics, s) = (panics, s)

abbrev pub ignore : Task Unit → Task Unit
ignore m s = ignored (m s)

-- What a bounded channel of tokio answers to a send: the value is taken, the receiver is gone, or
-- the channel is full and the sender waits.
pub data Answer : Type 0 where
  taken closed full : Answer

-- The two channels, at the time of one call: the channels are tokio's, so their answers are given.
-- `send_error` is the Display of tokio's SendError.
pub record Channels : Type 0 where
  pub to_event : JobEvent → Answer
  pub to_request : RestartRequest → Answer
  pub send_error : String

abbrev pub deliver : Answer → NusaError → (System → System) → Task Unit
deliver taken e f = modify f
deliver closed e f = fail e
deliver full e f = λ s. (waits, s)
