-- ===== src/Clock.antt =====
-- src/clock.rs: the local time. `GetLocalTime` is Windows'; this is what becomes of what it writes.
use fan_control_lian_li_wire.Base.{ℕ, ◌%◌, ◌^◌}
use fan_control_lian_li_wire.Heartbeat.{Clock}

-- `SYSTEMTIME`, whose fields are `u16`.
pub record SystemTime : Type 0 where
  pub year : ℕ
  pub month : ℕ
  pub day_of_week : ℕ
  pub day : ℕ
  pub hour : ℕ
  pub minute : ℕ
  pub second : ℕ
  pub milliseconds : ℕ

unfoldable pub local : SystemTime → Clock
local time = record {
  year = time.year;
  month = time.month % 2 ^ 8;
  day = time.day % 2 ^ 8;
  hour = time.hour % 2 ^ 8;
  minute = time.minute % 2 ^ 8;
  second = time.second % 2 ^ 8;
}
