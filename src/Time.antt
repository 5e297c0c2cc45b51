-- ===== src/Time.antt =====
-- std::time and the machine-width integers. Durations and instants count nanoseconds; an instant
-- counts from the clock's own zero.
use nusa_launchd.Shared.{ℕ, ◌+◌, ◌*◌, ◌%◌, ltb, if◌then◌else◌, Option, none, some}

-- Arithmetic in a release build, which Cargo.toml leaves without overflow checks.
abbrev pub u32 : ℕ → ℕ
u32 n = n % 4294967296

abbrev pub u64 : ℕ → ℕ
u64 n = n % 18446744073709551616

abbrev pub nanos_per_sec : ℕ
nanos_per_sec = 1000000000

abbrev pub from_secs : ℕ → ℕ
from_secs n = n * nanos_per_sec

-- On Linux an Instant holds its seconds in an i64.
abbrev pub instant_limit : ℕ
instant_limit = 9223372036854775808000000000

-- `Instant + Duration`; `none` is the panic on a time that an Instant cannot hold.
unfoldable pub add_duration : ℕ → ℕ → Option ℕ
add_duration t d = if ltb (t + d) instant_limit then some (t + d) else none
