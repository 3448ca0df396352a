-- ===== src/Tracker/Examples.antt =====
-- src/groups.rs, `Tracker`, at concrete inputs.
use fan_control_lian_li_wire.Base.{
  ◌≡◌, refl, ◌+◌, true, none, some, List, [], ◌∷◌, ◌++◌, arith, if◌then◌else◌, Bytes, secs,
}
use fan_control_lian_li_wire.Discovery.{Reply}
use fan_control_lian_li_wire.Discovery.Samples.{dongle_mac, mac_a, mac_b, sample}
use fan_control_lian_li_wire.Groups.{identity, shape, Group, new, online, bound_to, acknowledged}
use fan_control_lian_li_wire.Tracker.{Tracker, group, is_heard, rebuild, observe, sweep, sent}
use fan_control_lian_li_wire.Tracker.Counts.{count}
use fan_control_lian_li_wire.Tracker.Order.{IsTracker}
use fan_control_lian_li_wire.Tracker.Sorted.{IsSorted, staying, rebuild_lem}
use fan_control_lian_li_wire.Tracker.Invariant.{Call, observes, targets, sends, run, count-order}
use fan_control_lian_li_wire.Tracker.Forget.{outcome, group-sweep}
use fan_control_lian_li_wire.Groups
use fan_control_lian_li_wire.Tracker

abbrev reply : Reply
reply = record {
  reported = 2;
  masters = [];
  devices = sample mac_b ∷ sample mac_a ∷ [];
  skipped = 0;
}

abbrev calls : List Call
calls =
    observes reply (secs 1) ∷ targets mac_a (150 ∷ 150 ∷ 150 ∷ 0 ∷ []) ∷ sends mac_a (secs 1) ∷ []

count-order_example :
    (count mac_a (observe (run (Tracker.new dongle_mac) calls) reply (secs 2)).order ≡ (
      if is_heard
        (observe (run (Tracker.new dongle_mac) calls) reply (secs 2)).groups
        (secs 2)
        mac_a
      then 1
      else 0))
    × (count mac_a (sweep (run (Tracker.new dongle_mac) calls) (secs 2)).0.order ≡ (
        if is_heard (sweep (run (Tracker.new dongle_mac) calls) (secs 2)).0.groups (secs 2) mac_a
        then 1
        else 0))
count-order_example = count-order dongle_mac calls reply (secs 2) mac_a

abbrev known : Bytes → Group
known mac = record {
  device = sample mac;
  last_seen = secs 1;
  target = none;
  last_sent = none;
  unacknowledged = 0;
  identity = none;
  shape = none;
}

abbrev tracker_a : Tracker
tracker_a = record { master_mac = dongle_mac; groups = known mac_a ∷ []; order = mac_a ∷ [] }

tracker_a-IsTracker : IsTracker tracker_a
tracker_a-IsTracker = record { distinct = λ m. ground arith; once = λ m. ground arith }

rebuild_lem_example :
    (joined : List Bytes) × ((rebuild tracker_a (secs 20)).order
      ≡ staying tracker_a (secs 20) ++ joined)
    × IsSorted joined
    × ((m : Bytes)
        → count m (staying tracker_a (secs 20)) + count m joined
          ≡ (if is_heard tracker_a.groups (secs 20) m then 1 else 0))
    × ((rebuild tracker_a (secs 20)).groups ≡ tracker_a.groups)
    × ((rebuild tracker_a (secs 20)).master_mac ≡ tracker_a.master_mac)
rebuild_lem_example = rebuild_lem tracker_a (secs 20) tracker_a-IsTracker

group-sweep_example : outcome tracker_a (secs 700) mac_a ≡ (none, some (mac_a, true))
unfolding group Groups.online bound_to
group-sweep_example = group-sweep tracker_a (secs 700) mac_a (known mac_a) tracker_a-IsTracker refl
