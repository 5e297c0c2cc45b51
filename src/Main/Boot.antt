-- ===== src/Main/Boot.antt =====
-- The jobs that the daemon has after its directory is loaded and the spawned starts have run.
use nusa_launchd.Shared.{
  ℕ, ◌≡◌, refl, ◌∙◌, String, true, false, Option, none, some, List, Bool-cases, inl, inr,
}
use nusa_launchd.Util.{Result, ok}
use nusa_launchd.Dict.{listed, lookup}
use nusa_launchd.Job.Config.{JobConfig}
use nusa_launchd.Job.State.{System, JobInstance, JobEvent, empty_system}
use nusa_launchd.Job.Manager.{new_instance}
use nusa_launchd.Job.Manager.Boot.{start_spawned, start_spawned_lem}
use nusa_launchd.Job.Manager.Booted.{Booted, IsBooted, IsPending}
use nusa_launchd.Process.Spawner.{Os}
use nusa_launchd.Task.{Channels, done, taken}
use nusa_launchd.Main.Directory.{Host, load_jobs_from_directory}
use nusa_launchd.Main.Loads.{configs, first_config, settled_job, spawned_start}
use nusa_launchd.Main.Loading.{load_jobs_from_directory_lem}

-- What becomes of a label with the given first configuration: nothing without one; a job as it was
-- loaded, if it is not to be kept alive; and otherwise a job after its first start.
pub data Boots (os : Os) : Option JobConfig → Option JobInstance → Type 0 where
  absent : Boots os none none
  idle :
      (c : JobConfig) → c.supervision.keep_alive ≡ false → Boots os (some c) (some (new_instance c))
  boots :
      (c : JobConfig) (i : JobInstance)
      → c.supervision.keep_alive ≡ true
      → Booted os c i
      → Boots os (some c) (some i)

-- Where the event channel takes events and the directory can be read, loading the directory into a
-- new manager and then running the spawned starts one after the other, whatever the clock says and
-- the system answers at each of them, equal commands included, comes to an end and leaves these
-- jobs: for each label, the first configuration with it decides. One that is not to be kept alive
-- is loaded and Stopped; one that is to be kept alive runs in the process that the system spawned
-- for it, or has failed with the error of that spawn; and there is no other job.
pub load_jobs_from_directory-Boots :
    (os : String → Os) (ch : Channels) (host : Host) (dir : String)
    (entries : List (Result String String)) (now now' : String → ℕ)
    → ((e : JobEvent) → ch.to_event e ≡ taken)
    → host.files.exists dir ≡ true
    → host.read_dir dir ≡ ok entries
    → (t : System) × (u : System) × (load_jobs_from_directory host ch dir empty_system
        ≡ (done tt, t))
      × (start_spawned os ch now now' t.start_tasks t ≡ (done tt, u))
      × ((label : String)
          → Boots
              (os label)
              (first_config label (configs host.files entries))
              (lookup label u.jobs))
unfolding lookup listed
load_jobs_from_directory-Boots os ch host dir entries now now' takes here readable =
    let (k, t, _, l, _, _, jobs, starts) =
      load_jobs_from_directory_lem ch takes host dir entries empty_system here readable in
    let (u, r, others, started) = start_spawned_lem os ch takes now now' t.start_tasks t in
    (
      t,
      u,
      l,
      r,
      λ label.
          label_Boots label (first_config label (configs host.files entries)) t u (jobs label)
            (starts label) (others label) (started label),
    )
  where
    label_Boots :
        (label : String) (o : Option JobConfig) (t u : System)
        → lookup label t.jobs ≡ settled_job none o
        → listed label t.start_tasks ≡ spawned_start none o
        → (listed label t.start_tasks ≡ false → lookup label u.jobs ≡ lookup label t.jobs)
        → ((c : JobConfig)
            → listed label t.start_tasks ≡ true
            → IsPending (os label) c (lookup label t.jobs)
            → IsBooted (os label) c (lookup label u.jobs))
        → Boots (os label) o (lookup label u.jobs)
    label_Boots label none t u j s others started = rw (others s, j) absent
    label_Boots label (some c) t u j s others started = elim (Bool-cases c.supervision.keep_alive) [
      | inr n ↦ rw (others (s ∙ n), j) (idle c n)
      | inl y ↦
          let b =
            started c (s ∙ y) (record { job = new_instance c; present = j; pending = inl refl }) in
          rw b.present (boots c b.job y b.booted)
    ]
