-- ===== src/Speed/Reverse.antt =====
-- src/speed.rs, `prepare`, at duties that a chain from the right already has on the wire.
use fan_control_lian_li_wire.Base.{ℕ, ◌≤◌, ◌<◌, ◌≡◌, ◌⊎◌, false, Bytes, byte_at}
use fan_control_lian_li_wire.Discovery.{Device}
use fan_control_lian_li_wire.Speed.{min_duty, filters_duty}

-- The duty is one that `prepare` leaves alone on this device.
abbrev pub IsSettled : Device → ℕ → Type 0
IsSettled d v = (min_duty d ≤ v) × ((filters_duty d ≡ false) ⊎ ((v < 153) ⊎ (155 < v)))

abbrev pub AreSettled : Device → Bytes → Type 0
AreSettled d w = (i : ℕ) → i < d.fan_count → IsSettled d (byte_at w i)
