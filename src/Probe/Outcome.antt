-- ===== src/Probe/Outcome.antt =====
-- src/bin/probe.rs, `run`, from its arguments to its result: it ends.
use fan_control_lian_li_wire.Probe.Session.{Session, sleep}
use fan_control_lian_li_wire.Probe.Loops.{Run}
use fan_control_lian_li_wire.Dongle.{Error, connect, Dongle}
use fan_control_lian_li_wire.Dongle
