-- ===== src/Engine/Examples.antt =====
-- src/engine.rs at concrete inputs.
use fan_control_lian_li_wire.Tracker.Holding.{Holds}
use fan_control_lian_li_wire.Engine.Targets.{Aims}
use fan_control_lian_li_wire.Base.{
  ◌+◌, List, ℕ, ◌*◌, ◌^◌, min, ◌≡◌, refl, true, none, some, [], ◌∷◌, map, arith, leb, if◌then◌else◌,
  Bytes, secs, ok, err,
}
use fan_control_lian_li_wire.Discovery.Samples.{dongle_mac, mac_a, mac_b, sample}
use fan_control_lian_li_wire.Heartbeat.{Clock}
use fan_control_lian_li_wire.Groups.{
  identity, shape, Group, new, online, bound_to, has_fans, acknowledged,
}
use fan_control_lian_li_wire.Tracker.{Tracker, group, fans, sent}
use fan_control_lian_li_wire.Tracker.Counts.{count}
use fan_control_lian_li_wire.Tracker.Order.{IsTracker}
use fan_control_lian_li_wire.Engine.{
  reconnect_max_wait, Link, dongle, GroupState, Core, first_snapshot, clamp_percent, want, text,
}
use fan_control_lian_li_wire.Engine.Log.{fail}
use fan_control_lian_li_wire.Engine.Repeats.{burst, fail-burst}
use fan_control_lian_li_wire.Base.{get, bytes, ◌++◌}
use fan_control_lian_li_wire.Engine.Drive.{drive}
use fan_control_lian_li_wire.Engine.Tick.{want_percent, serve_all}
use fan_control_lian_li_wire.Engine.Asked.{round-Aims}
use fan_control_lian_li_wire.Engine.Host.{Loop, start, set_percent, round}
use fan_control_lian_li_wire.Engine.Publish.{publish}
use fan_control_lian_li_wire.Engine.Recover.{recover}
use fan_control_lian_li_wire.Engine.Backoff.{tried, AreTries, tried-recover}
use fan_control_lian_li_wire.Engine.Sending.{IsOneOf, Taking}
use fan_control_lian_li_wire.Engine.Sent.{driving_frame, drive-IsOneOf}
use fan_control_lian_li_wire.Engine.Outage.{IsGone, ticks, alarm-ticks}
use fan_control_lian_li_wire.Engine.Published.{is_bound_fans, count-publish}
use fan_control_lian_li_wire.Dongle
use fan_control_lian_li_wire.Groups
use fan_control_lian_li_wire.Tracker
use fan_control_lian_li_wire.Engine

abbrev no_text : ℕ → Bytes
no_text code = []

-- A dongle that was pulled out.
abbrev gone : Link
gone = record {
  Carrier = Unit {0};
  master_mac = λ l. dongle_mac;
  channel = λ l. 8;
  poll = λ l. (err Dongle.closed, l);
  send = λ l channel to payload. (err Dongle.closed, l);
  reconnect = λ l every_channel. (err Dongle.no_master, l);
}

gone-IsGone : IsGone gone
gone-IsGone = record {
  silent = λ l. (Dongle.closed, refl);
  lost = λ l every_channel. (Dongle.no_master, refl);
}

-- A dongle that takes everything, hears nothing, and comes back as another one.
abbrev swapped : Link
swapped = record {
  Carrier = Unit {0};
  master_mac = λ l. mac_b;
  channel = λ l. 9;
  poll = λ l. (ok (record { reported = 0; masters = []; devices = []; skipped = 0 }), l);
  send = λ l channel to payload. (ok tt, l);
  reconnect = λ l every_channel. (ok tt, l);
}

abbrev noon : Clock
noon = record { year = 2026; month = 7; day = 1; hour = 12; minute = 0; second = 0 }

alarm-ticks_example :
    (ticks no_text gone
      (Engine.new dongle_mac 8)
      tt
      ((secs 1, noon) ∷ (secs 2, noon) ∷ (secs 3, noon) ∷ [])).0.alarm
    ≡ some dongle
alarm-ticks_example =
    alarm-ticks no_text gone dongle_mac 8 tt ((secs 1, noon) ∷ (secs 2, noon) ∷ (secs 3, noon) ∷ [])
      gone-IsGone (omega arith)

abbrev known : Group
known = record {
  device = sample mac_a;
  last_seen = secs 1;
  target = none;
  last_sent = none;
  unacknowledged = 0;
  identity = none;
  shape = none;
}

abbrev tracker_a : Tracker
tracker_a = record { master_mac = dongle_mac; groups = known ∷ []; order = mac_a ∷ [] }

-- The core of a dongle with one group, of which 50 % is wanted.
abbrev core_a : Core
core_a = record {
  tracker = tracker_a;
  channel = 8;
  wanted = (mac_a, 50) ∷ [];
  heartbeat_sent = true;
  last_heartbeat = some (secs 1);
  failures_in_a_row = 3;
  reconnect_at = none;
  reconnect_wait = secs 2;
  last_skip_log = none;
  last_online = mac_a ∷ [];
  change_log = [];
  fail_log = [];
  alarm = none;
  snapshot = first_snapshot dongle_mac 8;
  events = [];
}

-- One attempt has failed, at two seconds; the next may be made at four.
tried-recover_example :
    let (c1, l1) = tried no_text gone core_a tt (secs 2 ∷ []) in
    let (c2, l2) = recover no_text gone c1 l1 (secs 4) in
    (l2 ≡ (gone.reconnect l1 (leb 5 1)).1)
    × (c2.reconnect_at ≡ some (secs 4 + min (secs 2 * 2 ^ 1) (secs 60)))
unfolding tried AreTries recover fan_control_lian_li_wire.Engine.Recover.still_lost
    fan_control_lian_li_wire.Engine.Log.fail
tried-recover_example =
    tried-recover no_text gone core_a tt (secs 2 ∷ []) (secs 4)
      (λ l every_channel. (Dongle.no_master, refl)) refl refl (refl, tt) refl

-- A dongle that keeps what it takes.
abbrev keeping : Link
keeping = record {
  Carrier = List (ℕ × ℕ × Bytes);
  master_mac = λ l. dongle_mac;
  channel = λ l. 8;
  poll = λ l. (err Dongle.closed, l);
  send = λ l channel to payload. (ok tt, (channel, to, payload) ∷ l);
  reconnect = λ l every_channel. (err Dongle.no_master, l);
}

abbrev keeping_taking : Taking keeping
keeping_taking = record {
  taken = λ l. l;
  succeeds = λ l channel to payload. refl;
  takes = λ l channel to payload. refl;
  same_master = λ l channel to payload. refl;
}

drive-IsOneOf_example :
    IsOneOf
      (driving_frame no_text keeping keeping_taking core_a [] known 50)
      (drive no_text keeping core_a [] (secs 2)).1
unfolding Tracker.fans Tracker.online bound_to has_fans Groups.due Groups.acknowledged group
    fan_control_lian_li_wire.Tracker.retarget
drive-IsOneOf_example =
    drive-IsOneOf no_text keeping keeping_taking core_a [] (secs 2) mac_a 50 known refl refl refl
      refl

tracker_a-IsTracker : IsTracker tracker_a
tracker_a-IsTracker = record { distinct = λ m. ground arith; once = λ m. ground arith }

count-publish_example :
    count mac_a (map (λ (s : GroupState). s.mac) (publish core_a (secs 2)).snapshot.groups)
    ≡ (if is_bound_fans tracker_a mac_a then 1 else 0)
unfolding Groups.online
count-publish_example = count-publish core_a (secs 2) mac_a tracker_a-IsTracker refl

-- A dongle that hears one group of its own and takes everything.
abbrev hearing : Link
hearing = record swapped {
  master_mac = λ l. dongle_mac;
  channel = λ l. 8;
  poll = λ l.
      (ok (record { reported = 1; masters = []; devices = sample mac_a ∷ []; skipped = 0 }), l);
}

abbrev asked : Loop no_text hearing
asked =
    let s = start no_text hearing tt in
    record s { shared = set_percent (set_percent s.shared mac_a 12) mac_b 90 }

round-Aims_example : Holds (Aims 30) (round no_text hearing asked (secs 1) noon).core.tracker mac_a
unfolding set_percent start Tracker.fans fan_control_lian_li_wire.Engine.Recover.judge
    fan_control_lian_li_wire.Engine.Sweep.sweep fan_control_lian_li_wire.Engine.Poll.poll
    fan_control_lian_li_wire.Engine.Poll.heartbeat serve_all want Tracker.sweep Tracker.observe
    Tracker.new Groups.online Groups.new bound_to has_fans
round-Aims_example =
    round-Aims no_text hearing asked (secs 1) noon [] (want_percent mac_b 90 ∷ []) mac_a 12 refl
      (refl, tt) refl

-- The same failure two, three and fifty-nine seconds after it was logged.
fail-burst_example :
    let c' =
      burst
        (fail core_a (bytes "poll: closed") (secs 1))
        (bytes "poll: closed")
        (secs 3 ∷ secs 4 ∷ secs 60 ∷ []) in
    (c'.events ≡ core_a.events ++ (bytes "poll: closed" ∷ []))
    × (get c'.fail_log (bytes "poll: closed") ≡ some (secs 1, 3))
fail-burst_example =
    fail-burst core_a (bytes "poll: closed") (secs 1) (secs 3 ∷ secs 4 ∷ secs 60 ∷ []) refl
      (omega arith, (omega arith, (omega arith, tt))) (omega arith)
