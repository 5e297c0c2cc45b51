-- ===== src/Job/Manager/Backoff.antt =====
-- How long the manager waits before a restart, and how this compares with the supervisor.
use native.Mathlib.Nat.{pow-le-pow_right}
use nusa_launchd.Shared.{ℕ, suc, ◌*◌, ◌^◌, ◌≤◌, ◌<◌, min, ◌≡◌, arith}
use nusa_launchd.Time.{from_secs}
use nusa_launchd.Job.State.{JobInstance}
use nusa_launchd.Job.Supervisor.{calculate_backoff}
use nusa_launchd.Job.Manager.{calculate_backoff_duration}

-- A delay below 2 ^ 59 does not wrap when it is multiplied by at most 2 ^ 5.
product_fits : (d e : ℕ) → d < 2 ^ 59 → e ≤ 5 → d * 2 ^ e < 2 ^ 64
product_fits d e h k =
    let p : 2 ^ e ≤ 32 = pow-le-pow_right (omega arith) k in
    let q : d * 2 ^ e ≤ d * 32 = grind arith in omega arith

-- Where the delay is below 2 ^ 59 seconds, the manager waits the delay, doubled for each restart
-- counted and at most five times: the multiplication does not wrap, and there is no other cap.
pub calculate_backoff_duration_lem :
    (i : JobInstance)
    → i.config.supervision.restart_delay_sec < 2 ^ 59
    → calculate_backoff_duration i
      ≡ from_secs (i.config.supervision.restart_delay_sec * 2 ^ min i.restart_count 5)
unfolding calculate_backoff_duration
calculate_backoff_duration_lem i h =
    let fits =
      product_fits i.config.supervision.restart_delay_sec (min i.restart_count 5) h (omega arith) in
    omega arith

-- The manager counts a restart before it computes the wait: for the restart number `n + 1`, with
-- `n` below 5 and a doubled delay that stays within the supervisor's cap, it waits twice as long as
-- JobSupervisor::calculate_backoff says after `n` restarts.
pub calculate_backoff_duration-doubles :
    (i : JobInstance) (n : ℕ)
    → i.restart_count ≡ suc n
    → n < 5
    → i.config.supervision.restart_delay_sec * 2 ^ n ≤ 300
    → calculate_backoff_duration i ≡ 2 * calculate_backoff i.config.supervision n
unfolding calculate_backoff_duration calculate_backoff
calculate_backoff_duration-doubles i n e l cap =
    let d = i.config.supervision.restart_delay_sec in
    let a : min (suc n) 5 ≡ suc n = omega arith in
    let b : min n 6 ≡ n = omega arith in
    let p : d * 2 ^ suc n ≡ 2 * (d * 2 ^ n) = grind arith in rw (e, a, b, p) (omega arith)
