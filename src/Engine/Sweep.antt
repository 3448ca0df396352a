-- ===== src/Engine/Sweep.antt =====
-- src/engine.rs, `sweep`: the log on groups that have gone quiet.
use fan_control_lian_li_wire.Base.{
  ℕ, Bool, true, false, not, ◌&&◌, Option, none, some, List, [], ◌++◌, map, if◌then◌else◌, any,
  filter_map, Bytes, bytes_eq, get, bytes, decimal, as_secs,
}
use fan_control_lian_li_wire.Groups.{
  offline_after, forget_after, Group, online, bound_to, has_fans, keep,
}
use fan_control_lian_li_wire.Tracker.{Tracker, contains, group, fans}
use fan_control_lian_li_wire.Engine.{Core, push_events, text, is_some}
use fan_control_lian_li_wire.Groups
use fan_control_lian_li_wire.Tracker

abbrev drives : Bytes → Option Group → Bool
drives master none = false
drives master (some g) = bound_to g master && has_fans g

-- The line on an address that was online and is not, and was not forgotten.
unfoldable pub quiet_line : Tracker → List Bytes → List (Bytes × Bool) → Bytes → Option Bytes
unfolding text
quiet_line t after forgotten mac =
    if not (contains after mac)
      && not (any (λ f. bytes_eq f.0 mac) forgotten)
      && drives t.master_mac (Tracker.group t mac)
    then some (
        text mac
        ++ bytes " unheard for "
        ++ decimal (as_secs Groups.offline_after)
        ++ bytes " s; its fans keep their last duty")
    else none

-- The line on a device that was forgotten.
unfoldable pub forgotten_line : List (Bytes × ℕ) → Bytes × Bool → Bytes
unfolding text
forgotten_line wanted (mac, false) = text mac ++ bytes " gone; it was not bound to this dongle"
forgotten_line wanted (mac, true) =
    text mac
    ++ bytes " forgotten after "
    ++ decimal (as_secs Groups.forget_after)
    ++ bytes " s unheard"
    ++ (if is_some (get wanted mac)
        then bytes "; driven at its last asked percentage if it returns"
        else [])

unfoldable pub sweep : Core → ℕ → Core
unfolding quiet_line forgotten_line
sweep c now =
    let (tracker, forgotten) = Tracker.sweep c.tracker now in
    let after = map (λ g. g.device.mac) (Tracker.online tracker) in
    push_events
      (filter_map (quiet_line tracker after forgotten) c.last_online
        ++ map (forgotten_line c.wanted) forgotten)
      (record c { tracker = tracker; last_online = after })
