-- ===== src/Speed/Examples.antt =====
-- src/speed.rs at concrete inputs, from the tests of that file.
use fan_control_lian_li_wire.Speed.Prepare.{prepared_duty, prepare-prepared_duty}
use fan_control_lian_li_wire.Base.{
  ℕ, ◌≡◌, refl, Bool, true, false, [], ◌∷◌, arith, replicate, Bytes, byte_at,
}
use fan_control_lian_li_wire.Discovery.{Device}
use fan_control_lian_li_wire.Speed.{
  min_duty, is_cooler, filters_duty, prepare_slot, reverse_first, prepare,
}

abbrev device : ℕ → ℕ → ℕ → Bool → Device
device mac kind fans right = record {
  mac = replicate 6 mac;
  master_mac = replicate 6 9;
  channel = 8;
  receiver = 2;
  device_type = kind;
  fan_count = fans;
  right_attach = right;
  effect = replicate 4 0;
  fan_types = 36 ∷ 36 ∷ 36 ∷ 0 ∷ [];
  rpm = replicate 4 0;
  duty = replicate 4 0;
  sequence = 0;
  pwm_line = false;
  light_sync = false;
}

abbrev uneven : Bytes
uneven = 100 ∷ 150 ∷ 200 ∷ 255 ∷ []

prepare_test : prepare (device 1 0 3 true) uneven ≡ 200 ∷ 150 ∷ 100 ∷ 0 ∷ []
unfolding prepare prepare_slot reverse_first min_duty is_cooler filters_duty
prepare_test = refl

prepare-prepared_duty_example :
    byte_at (prepare (device 1 0 3 true) uneven) 0 ≡ prepared_duty (device 1 0 3 true) 2 200
prepare-prepared_duty_example =
    prepare-prepared_duty (device 1 0 3 true) uneven 0 refl (omega arith)
