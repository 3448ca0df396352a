-- ===== src/Base/Time.antt =====
-- `Instant` and `Duration` are whole nanoseconds. `-` on ℕ stops at 0, as `duration_since` and
-- `saturating_duration_since` do.
use Prim.Native.Nat.{ℕ, ◌-◌, ◌*◌, ◌/◌}

abbrev pub secs : ℕ → ℕ
secs n = n * 1_000_000_000

abbrev pub millis : ℕ → ℕ
millis n = n * 1_000_000

abbrev pub as_secs : ℕ → ℕ
as_secs d = d / 1_000_000_000

abbrev pub duration_since : ℕ → ℕ → ℕ
duration_since now earlier = now - earlier
