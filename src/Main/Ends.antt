-- ===== src/Main/Ends.antt =====
-- How a run of the daemon can end, and what it prints.
use mathlib.Core.List.{append_assoc, append-nil}
use nusa_launchd.Shared.{
  ℕ, ◌≡◌, ◌⊎◌, refl, String, true, false, none, some, List, [], ◌∷◌, ◌++◌, length, map, inl, inr,
}
use nusa_launchd.Text.{concat}
use nusa_launchd.Util.{system, ok, err}
use nusa_launchd.Job.State.{System, JobStatus}
use nusa_launchd.Job.Manager.{list_jobs}
use nusa_launchd.Task.{Outcome, done, fails, waits, panics}
use nusa_launchd.Cli.{CliArgs, DaemonOptions, daemon}
use nusa_launchd.Main.Program.{Program, event_processor, signal_handler}
use nusa_launchd.Main.Daemon.{Env, status_line, total_line, print_jobs, show_daemon_status}
use nusa_launchd.Job.Manager.Blocks.{Steps}
use nusa_launchd.Job.Manager.Others.{run_others, Ran, before_Steps}

-- The lines of show_daemon_status.
unfoldable pub status_lines : List JobStatus → List String
status_lines jobs =
    "NusaLaunchd Daemon Status"
    ∷ "========================="
    ∷ total_line (length jobs)
    ∷ map status_line jobs

print_jobs_lem :
    (jobs : List JobStatus) (p : Program)
    → print_jobs jobs p ≡ (done tt, record p { lines = p.lines ++ map status_line jobs })
unfolding print_jobs
print_jobs_lem [] p = rw append-nil refl
print_jobs_lem (job ∷ jobs) p =
    rw (print_jobs_lem jobs (record p { lines = p.lines ++ status_line job ∷ [] }), append_assoc)
      refl

pub show_daemon_status_lem :
    (now : ℕ) (p : Program)
    → show_daemon_status now p
      ≡ (done tt, record p { lines = p.lines ++ status_lines (list_jobs now p.system) })
unfolding show_daemon_status status_lines
show_daemon_status_lem now p =
    rw (print_jobs_lem (list_jobs now p.system), append_assoc, append_assoc, append_assoc) refl

-- The commands on which main runs the daemon.
pub data IsDaemon (args : CliArgs) : Type 0 where
  by_default : args.command ≡ none → IsDaemon args
  by_command : (opts : DaemonOptions) → args.command ≡ some (daemon opts) → IsDaemon args

-- How the daemon's run ends, when the manager that was loaded is `t` and the other tasks follow their
-- schedules.
pub data DaemonEnd (env : Env) (args : CliArgs) (p : Program) (t : System)
    : Outcome Unit × Program → Type 0 where
  aborted :
      (r : Outcome Unit × Program)
      → (run_others env.after_load t).0 ≡ panics
      → r.0 ≡ panics
      → DaemonEnd env args p t r
  dry :
      (u : Ran env.after_load t)
      → args.dry_run ≡ true
      → DaemonEnd env args p t (
        done tt,
        record p {
          system = u.after;
          lines = p.lines ++ status_lines (list_jobs env.now u.after);
          background = p.background ++ event_processor ∷ [];
        },
      )
  detached :
      (u : Ran env.after_load t)
      → args.dry_run ≡ false
      → args.foreground ≡ false
      → DaemonEnd env args p t (
        done tt,
        record p { system = u.after; background = p.background ++ event_processor ∷ [] },
      )
  no_signals :
      (u : Ran env.after_load t) (e : String)
      → args.dry_run ≡ false
      → args.foreground ≡ true
      → env.signals ≡ err e
      → DaemonEnd env args p t (
        fails (system (concat ("Failed to setup signals: " ∷ e ∷ []))),
        record p { system = u.after; background = p.background ++ event_processor ∷ [] },
      )
  aborted_waiting :
      (u : Ran env.after_load t) (r : Outcome Unit × Program)
      → args.dry_run ≡ false
      → args.foreground ≡ true
      → env.signals ≡ ok tt
      → (run_others env.during_wait u.after).0 ≡ panics
      → r.0 ≡ panics
      → DaemonEnd env args p t r
  ended :
      (u : Ran env.after_load t) (v : Ran env.during_wait u.after)
      → args.dry_run ≡ false
      → args.foreground ≡ true
      → env.signals ≡ ok tt
      → env.ends ≡ true
      → DaemonEnd env args p t (
        done tt,
        record p {
          system = v.after;
          background = p.background ++ event_processor ∷ signal_handler ∷ [];
        },
      )
  attended :
      (u : Ran env.after_load t) (v : Ran env.during_wait u.after)
      → args.dry_run ≡ false
      → args.foreground ≡ true
      → env.signals ≡ ok tt
      → env.ends ≡ false
      → DaemonEnd env args p t (
        waits,
        record p {
          system = v.after;
          background = p.background ++ event_processor ∷ signal_handler ∷ [];
        },
      )

pub DaemonEnd-Steps :
    (env : Env) (args : CliArgs) (p : Program) (t : System) (r : Outcome Unit × Program)
    → DaemonEnd env args p t r
    → (r.0 ≡ panics) ⊎ Steps t r.1.system
DaemonEnd-Steps env args p t _ (aborted r b e) = inl e
DaemonEnd-Steps env args p t _ (dry u d) = inr u.steps
DaemonEnd-Steps env args p t _ (detached u d f) = inr u.steps
DaemonEnd-Steps env args p t _ (no_signals u e d f s) = inr u.steps
DaemonEnd-Steps env args p t _ (aborted_waiting u r d f s b e) = inl e
DaemonEnd-Steps env args p t _ (ended u v d f s y) =
    inr (before_Steps t u.after v.after u.steps v.steps)
DaemonEnd-Steps env args p t _ (attended u v d f s n) =
    inr (before_Steps t u.after v.after u.steps v.steps)
