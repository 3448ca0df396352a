-- ===== src/Probe/Text.antt =====
-- src/bin/probe.rs: what it prints of devices.
use fan_control_lian_li_wire.Base.{
  ℕ, min, max, List, [], ◌++◌, map, if◌then◌else◌, take, replicate, Bytes, byte_at, bytes_eq, bytes,
  decimal, hex_byte, list_text, join_with,
}
use fan_control_lian_li_wire.Discovery.{fans_per_group, Master, Device}
use fan_control_lian_li_wire.Speed.{percent_from_duty}

-- `clamp(1, FANS_PER_GROUP)`.
abbrev shown : ℕ → ℕ
shown count = max 1 (min count fans_per_group)

unfoldable pub fans : List ℕ → ℕ → List ℕ
fans values count = take (shown count) values

unfoldable pub mac : Bytes → Bytes
mac address = join_with (bytes ":") (map hex_byte address)

unfoldable pub describe_master : Master → Bytes
unfolding mac
describe_master master =
    bytes "master " ++ mac master.mac ++ bytes " channel " ++ decimal master.channel

unfoldable pub describe : Device → Bytes
unfolding mac fans
describe d =
    let attach = if d.right_attach then bytes " right-attach" else [] in
    let bound =
      if bytes_eq d.master_mac (replicate 6 0)
      then bytes "unbound"
      else bytes "bound to " ++ mac d.master_mac in
    mac d.mac
    ++ bytes " rx "
    ++ decimal d.receiver
    ++ bytes " ch "
    ++ decimal d.channel
    ++ bytes " type "
    ++ decimal d.device_type
    ++ bytes " fans "
    ++ decimal d.fan_count
    ++ attach
    ++ bytes " rpm "
    ++ list_text (fans d.rpm d.fan_count)
    ++ bytes " duty "
    ++ list_text (fans d.duty d.fan_count)
    ++ bytes " ("
    ++ decimal (percent_from_duty (byte_at d.duty 0))
    ++ bytes "%) seq "
    ++ decimal d.sequence
    ++ bytes " model "
    ++ list_text d.fan_types
    ++ bytes " "
    ++ bound
