-- ===== src/Main/Running.antt =====
-- What the program does as a daemon, in each mode.
use mathlib.Core.List.{append_assoc}
use nusa_launchd.Shared.{
  ◌≡◌, ◌⊎◌, refl, String, true, false, Option, none, some, List, [], ◌∷◌, ◌++◌, Bool-cases, inl,
  inr,
}
use nusa_launchd.Util.{Result, ok, err}
use nusa_launchd.Dict.{listed, lookup}
use nusa_launchd.Job.State.{System, JobEvent, empty_system}
use nusa_launchd.Task.{Outcome, done, fails, waits, panics, taken}
use nusa_launchd.Cli.{CliArgs, DaemonOptions, default_daemon_options}
use nusa_launchd.Job.Config.{JobConfig}
use nusa_launchd.Job.Manager.{new_instance}
use nusa_launchd.Job.Manager.Changes.{Jobs}
use nusa_launchd.Main.Program.{Program, Run, and_then, with_system, event_processor, signal_handler}
use nusa_launchd.Main.Directory.{load_jobs_from_directory}
use nusa_launchd.Main.Loads.{configs, first_config, settled_job, spawned_start}
use nusa_launchd.Main.Loading.{load_jobs_from_directory_lem}
use nusa_launchd.Main.Daemon.{Env, setup_signal_handlers, keep_running, run_daemon}
use nusa_launchd.Main.{main}
use nusa_launchd.Job.Manager.Blocks.{Steps}
use nusa_launchd.Job.Manager.Others.{run_others, Ran, run_others_cases}
use nusa_launchd.Job.Manager.Persistence.{Loaded, Steps-Loaded}
use nusa_launchd.Main.Ends.{
  show_daemon_status_lem, IsDaemon, by_default, by_command, DaemonEnd, aborted, dry, detached,
  no_signals, aborted_waiting, ended, attended, DaemonEnd-Steps,
}

panics_through :
    (x : Outcome Unit × System) (p : Program) (next : Run Unit)
    → x.0 ≡ panics
    → (and_then (with_system x p) (λ u. next)).0 ≡ panics
panics_through (done u, s) p next h = cc
panics_through (fails e, s) p next h = cc
panics_through (waits, s) p next h = cc
panics_through (panics, s) p next h = refl

module _ (env : Env) (args : CliArgs) (opts : DaemonOptions) (p : Program) (t : System)
    (l : load_jobs_from_directory env.host env.channels args.config_dir empty_system
      ≡ (done tt, t)) where
  attended_end :
      (u : Ran env.after_load t) (r : Result String Unit)
      → args.dry_run ≡ false
      → args.foreground ≡ true
      → env.signals ≡ r
      → DaemonEnd env args p t (run_daemon env args opts p)
  unfolding run_daemon setup_signal_handlers keep_running
  attended_end u (err e) d f s = simp (l, u.runs, d, f, s) (no_signals u e d f s)
  attended_end u (ok x) d f s = elim (run_others_cases env.during_wait u.after) [
    | inl b ↦ aborted_waiting u _ d f s b (
        simp (l, u.runs, d, f, s)
          (panics_through (run_others env.during_wait u.after)
            (record p {
              system = u.after;
              background = (p.background ++ event_processor ∷ []) ++ signal_handler ∷ [];
            })
            _ b))
    | inr v ↦ elim (Bool-cases env.ends) [
      | inl y ↦ simp (l, u.runs, d, f, s, v.runs, y, append_assoc) (ended u v d f s y)
      | inr n ↦ simp (l, u.runs, d, f, s, v.runs, n, append_assoc) (attended u v d f s n)
    ]
  ]

  daemon_end : DaemonEnd env args p t (run_daemon env args opts p)
  unfolding run_daemon
  daemon_end = elim (run_others_cases env.after_load t) [
    | inl b ↦ aborted _ b (
        simp l (
          panics_through (run_others env.after_load t)
            (record p { system = t; background = p.background ++ event_processor ∷ [] }) _ b))
    | inr u ↦ elim (Bool-cases args.dry_run) [
      | inl d ↦ simp (l, u.runs, d, show_daemon_status_lem) (dry u d)
      | inr d ↦ elim (Bool-cases args.foreground) [
        | inr f ↦ simp (l, u.runs, d, f) (detached u d f)
        | inl f ↦ attended_end u env.signals d f refl
      ]
    ]
  ]

main_end :
    (env : Env) (args : CliArgs) (p : Program) (t : System)
    → load_jobs_from_directory env.host env.channels args.config_dir empty_system ≡ (done tt, t)
    → IsDaemon args
    → DaemonEnd env args p t (main env args p)
unfolding main
main_end env args p t l (by_default c) = simp c (daemon_end env args default_daemon_options p t l)
main_end env args p t l (by_command opts c) = simp c (daemon_end env args opts p t l)

-- A label that has a configuration is loaded with it.
abbrev pub Held : String → Option JobConfig → Jobs → Type 0
Held label none jobs = Unit
Held label (some c) jobs = Loaded label c jobs

Steps-Held :
    (label : String) (o : Option JobConfig) (t u : System)
    → lookup label t.jobs ≡ settled_job none o
    → Steps t u
    → Held label o u.jobs
unfolding new_instance
Steps-Held label none t u e r = tt
Steps-Held label (some c) t u e r =
    Steps-Loaded label c t u r
      (record { instance_of = new_instance c; present = e; configured = refl })

-- As a daemon, by its command or by default, and where the event channel takes events and the
-- configuration directory can be read, the program first loads the directory into a new manager: the
-- first configuration with a label is the label's new job, and its start is spawned exactly if it is
-- to be kept alive. While main goes on, the other tasks run their blocks on the manager in any order.
-- A dry run prints the status of the jobs as these have left them and returns Ok; without the
-- foreground flag main returns Ok at once; in the foreground it returns an error if the signal
-- handler cannot be set up, and otherwise returns Ok when the event processor stops or Ctrl+C comes,
-- and not before. Unless one of those blocks panics, the manager at the end is what they have made of
-- the loaded one, and each label still has its job with the first configuration.
pub main-IsDaemon :
    (env : Env) (args : CliArgs) (entries : List (Result String String)) (p : Program)
    → ((e : JobEvent) → env.channels.to_event e ≡ taken)
    → IsDaemon args
    → env.host.files.exists args.config_dir ≡ true
    → env.host.read_dir args.config_dir ≡ ok entries
    → let cs = configs env.host.files entries in
      let result = main env args p in
      (t : System) × DaemonEnd env args p t result
      × ((label : String) → lookup label t.jobs ≡ settled_job none (first_config label cs))
      × ((label : String) → listed label t.start_tasks ≡ spawned_start none (first_config label cs))
      × ((result.0 ≡ panics)
          ⊎ (Steps t result.1.system
              × ((label : String) → Held label (first_config label cs) result.1.system.jobs)))
unfolding main lookup listed
main-IsDaemon env args entries p takes c here readable =
    let cs = configs env.host.files entries in
    let (k, t, _, l, _, _, jobs, starts) =
      load_jobs_from_directory_lem env.channels takes env.host args.config_dir entries empty_system
        here readable in
    let end = main_end env args p t l c in
    (
      t,
      end,
      jobs,
      starts,
      elim (DaemonEnd-Steps env args p t (main env args p) end) [
        | inl b ↦ inl b
        | inr r ↦ inr (r, λ label. Steps-Held label (first_config label cs) t _ (jobs label) r)
      ],
    )
