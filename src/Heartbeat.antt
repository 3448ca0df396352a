-- ===== src/Heartbeat.antt =====
-- src/heartbeat.rs: the broadcast that the fans expect once a second.
mod Examples
pub mod Layout
use fan_control_lian_li_wire.Base.{
  ℕ, ◌+◌, ◌-◌, ◌*◌, ◌/◌, ◌%◌, ◌^◌, ◌≤◌, ◌<◌, min, ◌≡◌, ◌∙◌, ◌≡⟨◌⟩◌, ◌∎, ◌≢◌, ◌↔◌, ◌⊎◌, Bool, ◌&&◌,
  ◌||◌, ◌∷◌, ◌++◌, ◌==◌, if◌then◌else◌, set, replicate, Bytes, slice, copy_at, u16_to_be_bytes,
  bytes, secs, ◌>>=◌,
}
use fan_control_lian_li_wire.Frame.{rf_payload_len, broadcast}

abbrev pub interval : ℕ
interval = secs 1

abbrev pub block_len : ℕ
block_len = 220

abbrev pub select : ℕ
select = 0x12

abbrev pub clock_sync : ℕ
clock_sync = 0x14

abbrev pub unset : ℕ
unset = 0x14

pub record Readings : Type 0 where
  pub cpu_temp : ℕ
  pub cpu_load : ℕ
  pub gpu_temp : ℕ
  pub gpu_load : ℕ
  pub cpu_mhz : ℕ
  pub gpu_mhz : ℕ

abbrev pub default_readings : Readings
default_readings = record {
  cpu_temp = 0;
  cpu_load = 0;
  gpu_temp = 0;
  gpu_load = 0;
  cpu_mhz = 0;
  gpu_mhz = 0;
}

pub record Clock : Type 0 where
  pub year : ℕ
  pub month : ℕ
  pub day : ℕ
  pub hour : ℕ
  pub minute : ℕ
  pub second : ℕ

unfoldable pub block : Readings → Clock → Bytes
block readings clock =
    let b0 = replicate block_len 0 in
    let b1 =
      set (set (set (set b0 0 readings.cpu_temp) 1 readings.cpu_load) 2 readings.gpu_temp) 3
        readings.gpu_load in
    let b2 =
      copy_at 6 (u16_to_be_bytes readings.gpu_mhz)
        (copy_at 4 (u16_to_be_bytes readings.cpu_mhz) b1) in
    let b3 = copy_at 32 (u16_to_be_bytes clock.year) b2 in
    set (set (set (set (set b3 34 clock.month) 35 clock.day) 36 clock.hour) 37 clock.minute) 38
      clock.second

unfoldable pub payload : Bytes → Bytes → Bool → Bytes
payload master_mac block' first =
    let d0 = replicate rf_payload_len 0 in
    let d1 = copy_at 8 master_mac (set (set d0 0 select) 1 clock_sync) in
    if first
    then copy_at 64 (slice 50 block_len block') (copy_at 14 (replicate 50 unset) d1)
    else copy_at 14 block' d1
