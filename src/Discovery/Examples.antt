-- ===== src/Discovery/Examples.antt =====
-- src/discovery.rs at concrete inputs, from the tests of that file.
use fan_control_lian_li_wire.Base.{
  ◌+◌, ◌≡◌, refl, ◌↔◌, true, some, [], ◌∷◌, ◌++◌, arith, length, replicate, filter_map, Bytes,
  bytes, decimal, ok, err,
}
use fan_control_lian_li_wire.Discovery.Parse.{records_of, Refuses, parse_reply-err, parse_reply-ok}
use fan_control_lian_li_wire.Discovery.{
  wrong_command, truncated, error_text, Device, Reply, parse_master, device_of, parse_device,
  parse_reply,
}
use fan_control_lian_li_wire.Discovery.Records.{IsDevice, parse_device-IsDevice}
use fan_control_lian_li_wire.Discovery.Encode.{encode_device, parse_device-encode_device}

abbrev dongle : Bytes
dongle = 0xbf ∷ 0x3d ∷ 0xca ∷ 0xe5 ∷ 0x66 ∷ 0xe4 ∷ []

abbrev group_a : Device
group_a = record {
  mac = 0x7c ∷ 0x9c ∷ 0x06 ∷ 0xf5 ∷ 0x17 ∷ 0xe1 ∷ [];
  master_mac = dongle;
  channel = 8;
  receiver = 2;
  device_type = 0;
  fan_count = 3;
  right_attach = true;
  effect = 1 ∷ 2 ∷ 3 ∷ 4 ∷ [];
  fan_types = 43 ∷ 43 ∷ 43 ∷ 0 ∷ [];
  rpm = 0x672 ∷ 0x680 ∷ 0x71c ∷ 0 ∷ [];
  duty = 201 ∷ 201 ∷ 201 ∷ 0 ∷ [];
  sequence = 17;
  pwm_line = true;
  light_sync = true;
}

group_a-IsDevice : IsDevice group_a
group_a-IsDevice = record {
  mac_len = refl;
  mac_set = λ e. cc;
  master_len = refl;
  not_master = omega arith;
  few_fans = omega arith;
  effect_len = refl;
  types_len = refl;
  rpm_len = refl;
  rpm_small = omega arith;
  duty_len = refl;
}

parse_device-encode_device_example : parse_device (encode_device group_a) ≡ some group_a
parse_device-encode_device_example = parse_device-encode_device group_a group_a-IsDevice

abbrev record_a : Bytes
record_a =
    0x7c
    ∷ 0x9c
    ∷ 0x06
    ∷ 0xf5
    ∷ 0x17
    ∷ 0xe1
    ∷ (dongle
        ++ (8 ∷ 2 ∷ 0 ∷ 0 ∷ 0 ∷ 0 ∷ 0 ∷ 13 ∷ 1 ∷ 2 ∷ 3 ∷ 4 ∷ 43 ∷ 43 ∷ 43 ∷ 0 ∷ 0x66 ∷ 0x72 ∷ 0x06
            ∷ 0x80 ∷ 0x07 ∷ 0x1c ∷ 0 ∷ 0 ∷ 201 ∷ 201 ∷ 201 ∷ 0 ∷ 17 ∷ 0x1c ∷ []))

record_a_encodes : encode_device group_a ≡ record_a
unfolding encode_device
record_a_encodes = refl

record_a_parses : parse_device record_a ≡ some group_a
unfolding parse_device device_of
record_a_parses = refl

parse_device-IsDevice_example : IsDevice group_a
parse_device-IsDevice_example = parse_device-IsDevice record_a group_a (omega arith) record_a_parses

-- A reply with one device and one record that is skipped.
abbrev two_records : Bytes
two_records = 0x10 ∷ 2 ∷ 0 ∷ 0 ∷ (record_a ++ replicate 42 0)

parse_reply-ok_example :
    (r : Reply) × (parse_reply two_records 1 ≡ ok r)
    × (r.reported ≡ 2)
    × (r.masters ≡ filter_map parse_master (records_of two_records 1))
    × (r.devices ≡ filter_map parse_device (records_of two_records 1))
    × (r.skipped + length r.masters + length r.devices ≡ 2)
parse_reply-ok_example = parse_reply-ok two_records 1 (omega arith) (omega arith) refl (omega arith)

parse_reply-err_example :
    (parse_reply (0x11 ∷ 0 ∷ 0 ∷ 0 ∷ []) 1 ≡ err (wrong_command 0x11))
    ↔ Refuses (0x11 ∷ 0 ∷ 0 ∷ 0 ∷ []) 1 (wrong_command 0x11)
parse_reply-err_example = parse_reply-err (0x11 ∷ 0 ∷ 0 ∷ 0 ∷ []) 1 (wrong_command 0x11)

truncated_text : error_text (truncated 88 87) ≡ bytes "discovery reply truncated: 87 of 88 bytes"
unfolding error_text decimal
truncated_text = refl
