-- ===== src/Engine/Publish.antt =====
-- src/engine.rs, `publish`: the snapshot that the host reads.
use fan_control_lian_li_wire.Base.{
  ℕ, Bool, true, false, not, ◌&&◌, ◌++◌, map, get_or, replicate, filter, Bytes,
}
use fan_control_lian_li_wire.Discovery.{fans_per_group}
use fan_control_lian_li_wire.Groups.{Group, online, bound_to, has_fans, acknowledged}
use fan_control_lian_li_wire.Engine.{GroupState, Core}
use fan_control_lian_li_wire.Groups
use fan_control_lian_li_wire.Tracker

unfoldable pub online_state : ℕ → Group → GroupState
online_state now g = record {
  mac = g.device.mac;
  receiver = g.device.receiver;
  fan_count = g.device.fan_count;
  model = get_or g.device.fan_types 0 0;
  online = true;
  rpm = g.device.rpm;
  duty = g.device.duty;
  target = g.target;
  acknowledged = Groups.acknowledged g now;
  unacknowledged = g.unacknowledged;
}

unfoldable pub offline_state : Group → GroupState
offline_state g = record {
  mac = g.device.mac;
  receiver = g.device.receiver;
  fan_count = g.device.fan_count;
  model = get_or g.device.fan_types 0 0;
  online = false;
  rpm = replicate fans_per_group 0;
  duty = g.device.duty;
  target = g.target;
  acknowledged = false;
  unacknowledged = g.unacknowledged;
}

abbrev pub bound_fans : Bytes → Group → Bool
bound_fans master g = bound_to g master && has_fans g

unfoldable pub publish : Core → ℕ → Core
unfolding online_state offline_state
publish c now =
    let master = c.tracker.master_mac in
    let online = filter (bound_fans master) (Tracker.online c.tracker) in
    let offline = filter (λ g. bound_fans master g && not (Groups.online g now)) c.tracker.groups in
    record c {
      snapshot = record c.snapshot {
        alarm = c.alarm;
        groups = map (online_state now) online ++ map offline_state offline;
      };
    }
