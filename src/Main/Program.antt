-- ===== src/Main/Program.antt =====
-- src/main.rs: what the commands act on. Besides the manager they print lines, write files and spawn
-- tasks. A path is printed by its Display, which is the path itself.
use nusa_launchd.Shared.{String, List, [], ◌∷◌, ◌++◌}
use nusa_launchd.Util.{NusaError}
use nusa_launchd.Job.State.{System}
use nusa_launchd.Task.{Task, Outcome, done, fails, waits, panics}

-- The tasks that the daemon spawns for itself: EventDispatcher::process_events, and the signal
-- handler.
pub data Background : Type 0 where
  event_processor signal_handler : Background

-- `lines` are the lines on the standard output, `written` the files that were written.
pub record Program : Type 0 where
  pub system : System
  pub lines : List String
  pub written : List (String × String)
  pub background : List Background

abbrev pub Run : Type 0 → Type 0
Run A = Program → Outcome A × Program

infixl 5 ◌>>=◌ ◌>>◌
abbrev pub and_then : {A B : Type 0} → Outcome A × Program → (A → Run B) → Outcome B × Program
and_then (fails e, p) next = (fails e, p)
and_then (waits, p) next = (waits, p)
and_then (panics, p) next = (panics, p)
and_then (done a, p) next = next a p

abbrev pub ◌>>=◌ : {A B : Type 0} → Run A → (A → Run B) → Run B
◌>>=◌ run next p = and_then (run p) next

abbrev pub ◌>>◌ : {B : Type 0} → Run Unit → Run B → Run B
◌>>◌ run next p = and_then (run p) (λ _. next)

abbrev pub pure : {A : Type 0} → A → Run A
pure a p = (done a, p)

abbrev pub fail : {A : Type 0} → NusaError → Run A
fail e p = (fails e, p)

abbrev pub stay : {A : Type 0} → Run A
stay p = (waits, p)

abbrev pub print_line : String → Run Unit
print_line line p = (done tt, record p { lines = p.lines ++ line ∷ [] })

abbrev pub wrote : String → String → Run Unit
wrote path text p = (done tt, record p { written = p.written ++ (path, text) ∷ [] })

abbrev pub spawn_task : Background → Run Unit
spawn_task b p = (done tt, record p { background = p.background ++ b ∷ [] })

-- A task of the manager.
abbrev pub with_system : {A : Type 0} → Outcome A × System → Program → Outcome A × Program
with_system (o, s) p = (o, record p { system = s })

abbrev pub on_system : {A : Type 0} → Task A → Run A
on_system m p = with_system (m p.system) p
