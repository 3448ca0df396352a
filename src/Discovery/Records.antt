-- ===== src/Discovery/Records.antt =====
-- src/discovery.rs, `parse_device`: what every device that is read has.
use fan_control_lian_li_wire.Base.{
  ℕ, zero, suc, ◌+◌, ◌-◌, ◌*◌, ◌≤◌, ◌<◌, bit_and, ◌≡◌, refl, ◌≢◌, true, some, [], ◌∷◌, arith, ltb,
  ltb→lt, tabulate, tabulated, length, drop, length-take, length-drop, All, Bytes, IsByte, AreBytes,
  byte_at, slice, bytes_eq_iff,
}
use fan_control_lian_li_wire.Frame.{zero_mac}
use fan_control_lian_li_wire.Discovery.{
  record_len, fans_per_group, marker, master_type, Device, rpm_at, device_of, parse_device,
}

bit_table : tabulate (λ x. ltb (bit_and x 0x0f) 16) 256 ≡ true
unfolding tabulate
bit_table = refl

low_nibble-lt : (x : ℕ) → IsByte x → bit_and x 0x0f < 16
low_nibble-lt x h = ltb→lt _ _ (tabulated (λ x. ltb (bit_and x 0x0f) 16) 256 bit_table x h)

byte_at-IsByte : (i : ℕ) (bs : Bytes) → AreBytes bs → IsByte (byte_at bs i)
byte_at-IsByte i [] h = omega arith
byte_at-IsByte zero (b ∷ bs) h = h.0
byte_at-IsByte (suc i) (b ∷ bs) h = byte_at-IsByte i bs h.1

rpm_at-lt : (bs : Bytes) (slot : ℕ) → AreBytes bs → rpm_at bs slot < 4096
unfolding rpm_at
rpm_at-lt bs slot h = omega (
  arith,
  low_nibble-lt (byte_at bs (28 + slot * 2)) (byte_at-IsByte (28 + slot * 2) bs h),
  byte_at-IsByte (28 + slot * 2 + 1) bs h,
)

-- The ranges that the rest of the program relies on.
pub record IsDevice (d : Device) : Type 0 where
  pub mac_len : length d.mac ≡ 6
  pub mac_set : d.mac ≢ zero_mac
  pub master_len : length d.master_mac ≡ 6
  pub not_master : d.device_type ≢ master_type
  pub few_fans : d.fan_count ≤ fans_per_group
  pub effect_len : length d.effect ≡ 4
  pub types_len : length d.fan_types ≡ 4
  pub rpm_len : length d.rpm ≡ 4
  pub rpm_small : All (λ r. r < 4096) d.rpm
  pub duty_len : length d.duty ≡ 4

length-slice : (a b : ℕ) (bs : Bytes) → b ≤ length bs → length (slice a b bs) ≡ b - a
length-slice a b bs h = omega (arith, length-take (b - a) (drop a bs), length-drop a bs)

device_of-IsDevice :
    (bs : Bytes)
    → AreBytes bs
    → record_len ≤ length bs
    → slice 0 6 bs ≢ zero_mac
    → byte_at bs 18 ≢ master_type
    → IsDevice (device_of bs (slice 0 6 bs))
unfolding device_of
device_of-IsDevice bs h long set kind = record {
  mac_len = length-slice 0 6 bs (omega arith);
  mac_set = set;
  master_len = length-slice 6 12 bs (omega arith);
  not_master = kind;
  few_fans = ground arith;
  effect_len = length-slice 20 24 bs (omega arith);
  types_len = length-slice 24 28 bs (omega arith);
  rpm_len = refl;
  rpm_small = (rpm_at-lt bs 0 h, (rpm_at-lt bs 1 h, (rpm_at-lt bs 2 h, (rpm_at-lt bs 3 h, tt))));
  duty_len = length-slice 36 40 bs (omega arith);
}

-- What an accepted record passed.
record Accepted (bs : Bytes) (d : Device) : Type 0 where
  pub long : record_len ≤ length bs
  pub set : slice 0 6 bs ≢ zero_mac
  pub kind : byte_at bs 18 ≢ master_type
  pub marked : byte_at bs 41 ≡ marker
  pub same : d ≡ device_of bs (slice 0 6 bs)

parse_device-Accepted : (bs : Bytes) (d : Device) → parse_device bs ≡ some d → Accepted bs d
unfolding parse_device
parse_device-Accepted bs d e = record {
  long = ground arith;
  set = ground (arith, bytes_eq_iff (slice 0 6 bs) zero_mac);
  kind = ground arith;
  marked = ground arith;
  same = ground arith;
}

-- The converse of `parse_device-Accepted`.
pub parse_device-eq-some :
    (bs : Bytes)
    → record_len ≤ length bs
    → slice 0 6 bs ≢ zero_mac
    → byte_at bs 18 ≢ master_type
    → byte_at bs 41 ≡ marker
    → parse_device bs ≡ some (device_of bs (slice 0 6 bs))
unfolding parse_device
parse_device-eq-some bs long set kind marked = ground (arith, bytes_eq_iff (slice 0 6 bs) zero_mac)

-- A record of bytes that is read as a device has an address of six bytes that is not zero, another
-- kind than a dongle's, at most four fans, and four speeds below 4096.
pub parse_device-IsDevice :
    (bs : Bytes) (d : Device) → AreBytes bs → parse_device bs ≡ some d → IsDevice d
parse_device-IsDevice bs d h e =
    let a = parse_device-Accepted bs d e in rw a.same (device_of-IsDevice bs h a.long a.set a.kind)
