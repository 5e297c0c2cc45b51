-- ===== src/Job/Supervisor/Policy.antt =====
-- When the supervisor restarts a job, and how long it waits.
use nusa_launchd.Shared.{
  ℕ, ◌*◌, ◌^◌, ◌≤◌, ◌<◌, min, ◌≡◌, refl, ◌≢◌, ◌↔◌, ◌⊎◌, true, Option, none, some, arith,
}
use nusa_launchd.Shared.Int.{ℤ, pos, negsuc}
use native.Mathlib.Nat.{pow-le-pow_right}
use nusa_launchd.Time.{from_secs}
use nusa_launchd.Job.Config.{RestartPolicy, never, always, on_failure, on_crash, SupervisionConfig}
use nusa_launchd.Job.Supervisor.{policy_restarts, should_restart, calculate_backoff}

-- What a policy asks of the exit.
abbrev pub PolicyWants : RestartPolicy → ℤ → Option ℤ → Type 0
PolicyWants never exit_code signal = ⊥
PolicyWants always exit_code signal = Unit
PolicyWants on_failure exit_code signal = exit_code ≢ pos 0
PolicyWants on_crash exit_code signal = (s : ℤ) × (signal ≡ some s)

-- The job is kept alive, its limit is not used up (0 is no limit), and its policy wants a restart.
pub record WantsRestart (config : SupervisionConfig) (exit_code : ℤ) (signal : Option ℤ) (n : ℕ)
    : Type 0 where
  pub kept_alive : config.keep_alive ≡ true
  pub under_limit : (config.max_restarts ≡ 0) ⊎ (n < config.max_restarts)
  pub wanted : PolicyWants config.restart_policy exit_code signal

policy_restarts_iff :
    (p : RestartPolicy) (exit_code : ℤ) (signal : Option ℤ)
    → (policy_restarts p exit_code signal ≡ true) ↔ PolicyWants p exit_code signal
unfolding policy_restarts
policy_restarts_iff never e s = (λ h. cc, λ h. absurd h)
policy_restarts_iff always e s = (λ h. tt, λ h. refl)
policy_restarts_iff on_failure (pos n) s = (λ h p. ground arith, λ h. ground arith)
policy_restarts_iff on_failure (negsuc n) s = (λ h p. cc, λ h. refl)
policy_restarts_iff on_crash e none = (λ h. cc, λ h. cc h.1)
policy_restarts_iff on_crash e (some s) = (λ h. (s, refl), λ h. refl)

-- JobSupervisor::should_restart answers true exactly when the job is kept alive, its limit is 0 or
-- above the restart count, and the policy wants it: always, on a non-zero exit code, or on a signal.
pub should_restart_iff :
    (config : SupervisionConfig) (exit_code : ℤ) (signal : Option ℤ) (n : ℕ)
    → (should_restart config exit_code signal n ≡ true) ↔ WantsRestart config exit_code signal n
unfolding should_restart
should_restart_iff config exit_code signal n = (
  λ h. record {
    kept_alive = ground arith;
    under_limit = ground arith;
    wanted = (policy_restarts_iff config.restart_policy exit_code signal).0 (ground arith);
  },
  λ w.
      let p = (policy_restarts_iff config.restart_policy exit_code signal).1 w.wanted in
      ground (arith, w.under_limit),
)

-- The backoff is at most five minutes, whatever the configuration.
pub calculate_backoff-le :
    (config : SupervisionConfig) (n : ℕ) → calculate_backoff config n ≤ from_secs 300
unfolding calculate_backoff
calculate_backoff-le config n = omega arith

-- A delay below 2 ^ 58 does not wrap when it is multiplied by at most 2 ^ 6.
product_fits : (d e : ℕ) → d < 2 ^ 58 → e ≤ 6 → d * 2 ^ e < 2 ^ 64
product_fits d e h k =
    let p : 2 ^ e ≤ 64 = pow-le-pow_right (omega arith) k in
    let q : d * 2 ^ e ≤ d * 64 = grind arith in omega arith

-- Where the delay is below 2 ^ 58 seconds the backoff is the delay, doubled for each restart so far
-- and at most six times, and capped at 300 seconds: the multiplication does not wrap.
pub calculate_backoff_lem :
    (config : SupervisionConfig) (n : ℕ)
    → config.restart_delay_sec < 2 ^ 58
    → calculate_backoff config n ≡ from_secs (min (config.restart_delay_sec * 2 ^ min n 6) 300)
unfolding calculate_backoff
calculate_backoff_lem config n h =
    let fits = product_fits config.restart_delay_sec (min n 6) h (omega arith) in omega arith

-- Where the delay is below 2 ^ 58 seconds a later restart never waits less than an earlier one.
pub calculate_backoff_mono :
    (config : SupervisionConfig) (m n : ℕ)
    → config.restart_delay_sec < 2 ^ 58
    → m ≤ n
    → calculate_backoff config m ≤ calculate_backoff config n
calculate_backoff_mono config m n h k =
    let p : 2 ^ min m 6 ≤ 2 ^ min n 6 = pow-le-pow_right (omega arith) (omega arith) in
    let q : config.restart_delay_sec * 2 ^ min m 6 ≤ config.restart_delay_sec * 2 ^ min n 6 =
      grind arith in
    rw (calculate_backoff_lem config m h, calculate_backoff_lem config n h) (omega arith)

-- Where the delay is a multiple of 2 ^ 58 seconds, the product wraps and the backoff is 0 from a
-- restart count of six on.
pub calculate_backoff_wraps :
    (config : SupervisionConfig) (k n : ℕ)
    → config.restart_delay_sec ≡ k * 2 ^ 58
    → 6 ≤ n
    → calculate_backoff config n ≡ 0
unfolding calculate_backoff
calculate_backoff_wraps config k n h six =
    let e : min n 6 ≡ 6 = omega arith in rw (e, h) (omega arith)
