-- ===== src/Duration.antt =====
-- `std::time::Duration` and `Instant`, both as a number of nanoseconds (an instant counts from a
-- fixed start of the monotonic clock). What the source uses of them and nothing else.
use that_limit.Prelude.{ℕ, ◌-◌, ◌*◌, ◌/◌, ◌%◌}

abbrev pub Duration : Type 0
Duration = ℕ

abbrev pub Instant : Type 0
Instant = ℕ

abbrev pub nanos_per_ms : ℕ
nanos_per_ms = 1_000_000

abbrev pub nanos_per_sec : ℕ
nanos_per_sec = 1_000_000_000

abbrev pub from_millis : ℕ → Duration
from_millis ms = ms * nanos_per_ms

abbrev pub from_secs : ℕ → Duration
from_secs s = s * nanos_per_sec

abbrev pub as_secs : Duration → ℕ
as_secs d = d / nanos_per_sec

abbrev pub subsec_nanos : Duration → ℕ
subsec_nanos d = d % nanos_per_sec

-- `saturating_sub` on durations, and `duration_since` and `elapsed` on instants, stop at zero, as
-- `-` on ℕ does.
abbrev pub saturating_sub : Duration → Duration → Duration
saturating_sub a b = a - b

abbrev pub duration_since : Instant → Instant → Duration
duration_since later earlier = later - earlier
