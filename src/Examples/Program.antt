-- ===== src/Examples/Program.antt =====
-- The program on a directory with one job file, one broken file and one other file.
use text.Mathlib.Text.{◌==◌ as str_eq}
use nusa_launchd.Shared.{
  ◌⊎◌, ◌≤◌, arith, ◌+◌, ◌≡◌, refl, ◌↔◌, String, true, ◌||◌, none, List, [], ◌∷◌, ◌++◌, length, ltb,
  if◌then◌else◌, false, some,
}
use nusa_launchd.Util.{system, Result, ok, err}
use nusa_launchd.Text.{trim, contains}
use nusa_launchd.Job.Manager.{load_job, list_jobs, begin_start, commit_start, handle_process_exit}
use nusa_launchd.Job.Manager.Others.{run_others}
use nusa_launchd.Dict.{listed, lookup, insert}
use nusa_launchd.Job.Config.{Files, always, from_file}
use nusa_launchd.Job.State.{System, empty_system}
use nusa_launchd.Task.{panics, done, fails}
use nusa_launchd.Cli.{CliArgs, info}
use nusa_launchd.Main.{
  Host, Env, Counts, load_directory, load_jobs_from_directory, Tally, summary, validate_config,
  main, run_daemon, total_line, status_line, is_toml,
}
use nusa_launchd.Main.Program.{Program}
use nusa_launchd.Main.Loads.{configs, toml_files, first_config, settled_job, spawned_start}
use nusa_launchd.Main.Loading.{load_jobs_from_directory_lem}
use nusa_launchd.Main.Validity.{reports, Passes, validate_config-directory, validate_config_iff}
use nusa_launchd.Main.Running.{Held, main-IsDaemon}
use nusa_launchd.Main.Ends.{by_default, DaemonEnd}
use nusa_launchd.Job.Manager.Blocks.{Steps, run_block}
use nusa_launchd.Process.Spawner.{Os}
use mathlib.Core.List.{Permᴰ}
use nusa_launchd.Main.Order.{labelled, load_jobs_from_directory-Perm}
use nusa_launchd.Main.Boot.{Boots, load_jobs_from_directory-Boots}
use nusa_launchd.Job.Manager.Boot.{start_spawned}
use nusa_launchd.Examples.Data.{
  begin_block, commit_block, exit_block, waiting_system, linux, web_document, open_channels,
}

-- Every file can be read; only web.toml parses.
abbrev job_files : Files
job_files = record {
  exists = λ path. true;
  read_to_string = λ path. ok path;
  from_str = λ content. if str_eq content "jobs/web.toml" then ok web_document else err "no table";
}

abbrev job_host : Host
job_host = record {
  files = job_files;
  is_dir = λ path. str_eq path "jobs";
  read_dir =
      λ path. ok (ok "jobs/web.toml" ∷ err "gone" ∷ ok "jobs/README.md" ∷ ok "jobs/db.toml" ∷ []);
  write = λ path text. ok tt;
}

abbrev job_entries : List (Result String String)
job_entries = ok "jobs/web.toml" ∷ err "gone" ∷ ok "jobs/README.md" ∷ ok "jobs/db.toml" ∷ []

load_directory_test :
    (load_directory job_host open_channels "jobs" empty_system).0
    ≡ done (record { loaded = 1; failed = 1 })
unfolding load_directory from_file trim contains load_job lookup
load_directory_test = refl

load_jobs_from_directory_lem_example :
    (k : Counts) × (t : System) × (load_directory job_host open_channels "jobs" empty_system
      ≡ (done k, t))
    × (load_jobs_from_directory job_host open_channels "jobs" empty_system ≡ (done tt, t))
    × (k.loaded + k.failed ≡ toml_files job_entries)
    × (length t.jobs ≡ length empty_system.jobs + k.loaded)
    × ((label : String)
        → lookup label t.jobs
          ≡ settled_job
              (lookup label empty_system.jobs)
              (first_config label (configs job_files job_entries)))
    × ((label : String)
        → listed label t.start_tasks ≡ (
            listed label empty_system.start_tasks
            || spawned_start
                (lookup label empty_system.jobs)
                (first_config label (configs job_files job_entries))))
load_jobs_from_directory_lem_example =
    load_jobs_from_directory_lem open_channels (λ e. refl) job_host "jobs" job_entries empty_system
      refl refl

abbrev at_start : Program
at_start = record { system = empty_system; lines = []; written = []; background = [] }

validate_config-directory_example :
    (t : Tally) × (t.valid ≡ length (configs job_files job_entries))
    × (t.valid + t.invalid ≡ toml_files job_entries)
    × (validate_config job_host "jobs" true at_start ≡ (
      if ltb 0 t.invalid then fails (system "Strict validation failed") else done tt,
      record at_start { lines = at_start.lines ++ reports job_files job_entries ++ summary t ∷ [] },
    ))
validate_config-directory_example =
    validate_config-directory job_host "jobs" true job_entries at_start refl refl

validate_config_iff_example :
    ((validate_config job_host "jobs" true at_start).0 ≡ done tt) ↔ Passes job_host "jobs" true
validate_config_iff_example = validate_config_iff job_host "jobs" true at_start

-- A document that JobConfig::validate warns about: a restart policy, but no keep_alive.
abbrev warned_files : Files
warned_files = record job_files {
  from_str = λ content. ok (record web_document {
    supervision = some (record {
      keep_alive = some false;
      restart_policy = some always;
      restart_delay_sec = none;
      max_restarts = none;
    });
  });
}

-- It is accepted, also when strict.
warned_test :
    (validate_config (record job_host { files = warned_files }) "web.toml" true at_start).0
    ≡ done tt
unfolding validate_config from_file trim contains
warned_test = refl

abbrev job_env : Env
job_env = record {
  host = job_host;
  channels = open_channels;
  now = 5;
  signals = ok tt;
  ends = true;
  after_load = begin_block ∷ commit_block ∷ [];
  during_wait = exit_block ∷ [];
}

abbrev dry_args : CliArgs
dry_args = record {
  command = none;
  config_dir = "jobs";
  log_level = info;
  foreground = true;
  test_config = none;
  dry_run = true;
}

main_test :
    (main job_env dry_args at_start).1.lines
    ≡ "NusaLaunchd Daemon Status" ∷ "=========================" ∷ "Total jobs: 1"
      ∷ "  ✓ web [running]" ∷ []
unfolding main run_daemon from_file trim contains load_job lookup list_jobs insert total_line
    status_line run_others run_block begin_start commit_start
main_test = refl

abbrev daemon_args : CliArgs
daemon_args = record dry_args { dry_run = false }

main-IsDaemon_example :
    let cs = configs job_files job_entries in
    let result = main job_env daemon_args at_start in
    (t : System) × DaemonEnd job_env daemon_args at_start t result
    × ((label : String) → lookup label t.jobs ≡ settled_job none (first_config label cs))
    × ((label : String) → listed label t.start_tasks ≡ spawned_start none (first_config label cs))
    × ((result.0 ≡ panics)
        ⊎ (Steps t result.1.system
            × ((label : String) → Held label (first_config label cs) result.1.system.jobs)))
main-IsDaemon_example =
    main-IsDaemon job_env daemon_args job_entries at_start (λ e. refl) (by_default refl) refl refl

-- In the foreground the job has been started and has crashed when the wait ends.
crash_test :
    lookup "web" (main job_env daemon_args at_start).1.system.jobs
    ≡ lookup "web" waiting_system.jobs
unfolding main run_daemon from_file trim contains load_job lookup insert run_others run_block
    begin_start commit_start handle_process_exit
crash_test = refl

-- A system that gives each label a process of its own, whatever the command is.
abbrev system_of : String → Os
system_of label = record linux { spawn = λ c. ok (some (if str_eq label "web" then 7 else 8)) }

load_jobs_from_directory-Boots_example :
    (t : System) × (u : System) × (load_jobs_from_directory job_host open_channels "jobs"
        empty_system
      ≡ (done tt, t))
    × (start_spawned system_of open_channels (λ label. 10) (λ label. 20) t.start_tasks t
        ≡ (done tt, u))
    × ((label : String)
        → Boots
            (system_of label)
            (first_config label (configs job_files job_entries))
            (lookup label u.jobs))
load_jobs_from_directory-Boots_example =
    load_jobs_from_directory-Boots system_of open_channels job_host "jobs" job_entries (λ label. 10)
      (λ label. 20) (λ e. refl) refl refl

-- The same entries in another order.
abbrev other_entries : List (Result String String)
other_entries = err "gone" ∷ ok "jobs/web.toml" ∷ ok "jobs/README.md" ∷ ok "jobs/db.toml" ∷ []

abbrev other_host : Host
other_host = record job_host { read_dir = λ path. ok other_entries }

once : (label : String) → labelled label (configs job_files job_entries) ≤ 1
unfolding labelled configs is_toml from_file trim contains
once label = ground arith

load_jobs_from_directory-Perm_example :
    (t : System) × (t' : System) × (load_jobs_from_directory job_host open_channels "jobs"
        empty_system
      ≡ (done tt, t))
    × (load_jobs_from_directory other_host open_channels "jobs" empty_system ≡ (done tt, t'))
    × ((label : String) → lookup label t.jobs ≡ lookup label t'.jobs)
    × ((label : String) → listed label t.start_tasks ≡ listed label t'.start_tasks)
load_jobs_from_directory-Perm_example =
    load_jobs_from_directory-Perm open_channels job_host "jobs" job_entries other_entries
      empty_system (λ e. refl) refl refl (Permᴰ.swap refl refl) once
