-- ===== src/Discovery/Samples.antt =====
-- A dongle and two of its groups, as the tests of src/discovery.rs have them.
use fan_control_lian_li_wire.Base.{true, false, [], ◌∷◌, Bytes}
use fan_control_lian_li_wire.Discovery.{Device}

abbrev pub dongle_mac : Bytes
dongle_mac = 0xbf ∷ 0x3d ∷ 0xca ∷ 0xe5 ∷ 0x66 ∷ 0xe4 ∷ []

abbrev pub mac_a : Bytes
mac_a = 0x7c ∷ 0x9c ∷ 0x06 ∷ 0xf5 ∷ 0x17 ∷ 0xe1 ∷ []

abbrev pub mac_b : Bytes
mac_b = 0x7c ∷ 0x9c ∷ 0x06 ∷ 0xf5 ∷ 0x17 ∷ 0xe2 ∷ []

abbrev pub sample : Bytes → Device
sample mac = record {
  mac = mac;
  master_mac = dongle_mac;
  channel = 8;
  receiver = 2;
  device_type = 0;
  fan_count = 3;
  right_attach = false;
  effect = 1 ∷ 2 ∷ 3 ∷ 4 ∷ [];
  fan_types = 43 ∷ 43 ∷ 43 ∷ 0 ∷ [];
  rpm = 0x672 ∷ 0x680 ∷ 0x71c ∷ 0 ∷ [];
  duty = 201 ∷ 201 ∷ 201 ∷ 0 ∷ [];
  sequence = 17;
  pwm_line = true;
  light_sync = true;
}
