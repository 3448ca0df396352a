-- ===== src/Heartbeat/Examples.antt =====
-- src/heartbeat.rs at concrete inputs.
use fan_control_lian_li_wire.Base.{[], ◌∷◌, Bytes}
use fan_control_lian_li_wire.Heartbeat.{Clock}

abbrev clock : Clock
clock = record { year = 2031; month = 12; day = 25; hour = 23; minute = 59; second = 58 }

abbrev dongle : Bytes
dongle = 0xbf ∷ 0x3d ∷ 0xca ∷ 0xe5 ∷ 0x66 ∷ 0xe4 ∷ []
