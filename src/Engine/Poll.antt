-- ===== src/Engine/Poll.antt =====
-- src/engine.rs, `heartbeat` and `poll`: the first two steps of a tick.
use fan_control_lian_li_wire.Base.{
  ℕ, ◌+◌, ◌%◌, ◌^◌, true, not, ◌||◌, none, some, [], ◌++◌, map, ltb, ◌==◌, if◌then◌else◌, filter,
  all, Bytes, bytes, decimal, Result, ok, err,
}
use fan_control_lian_li_wire.Discovery.{Reply}
use fan_control_lian_li_wire.Frame.{broadcast}
use fan_control_lian_li_wire.Heartbeat.{interval, default_readings, Clock, block, payload}
use fan_control_lian_li_wire.Groups.{Group, bound_to}
use fan_control_lian_li_wire.Tracker.{Tracker, contains, group, observe, fans, sent}
use fan_control_lian_li_wire.Engine.{
  reconnect_first_wait, skip_log_every, Link, Core, push_event, push_events, text, within_interval,
}
use fan_control_lian_li_wire.Engine.Log.{fail}
use fan_control_lian_li_wire.Dongle
use fan_control_lian_li_wire.Heartbeat
use fan_control_lian_li_wire.Tracker

-- `owner_text`.
unfoldable pub owner_text : Bytes → Bytes
unfolding text
owner_text master =
    if all (λ b. b == 0) master || all (λ b. b == 255) master
    then bytes ", unbound"
    else bytes ", bound to another dongle " ++ text master

-- The line on a group that was not online before the poll.
unfoldable pub online_line : Bytes → Group → Bytes
unfolding text owner_text
online_line master g =
    text g.device.mac
    ++ bytes " online: "
    ++ decimal g.device.fan_count
    ++ bytes " fans, receiver "
    ++ decimal g.device.receiver
    ++ (if bound_to g master then [] else owner_text g.device.master_mac)

-- The count of unreadable records, and the line on them that is due.
unfoldable pub note_skipped : Core → Reply → ℕ → Core
unfolding push_event
note_skipped c reply now =
    if ltb 0 reply.skipped
    then (let total = (c.snapshot.skipped_records + reply.skipped) % 2 ^ 64 in
        let counted = record c { snapshot = record c.snapshot { skipped_records = total } } in
        if within_interval now skip_log_every c.last_skip_log
        then counted
        else push_event
            (decimal reply.skipped
              ++ bytes " unreadable record(s) in a reply, "
              ++ decimal total
              ++ bytes " so far")
            (record counted { last_skip_log = some now }))
    else c

-- The tracker takes the reply in, and each group that came online is logged.
unfoldable pub take_reply : Core → Reply → ℕ → Core
unfolding online_line
take_reply c reply now =
    let before = map (λ g. g.device.mac) (Tracker.online c.tracker) in
    let tracker = observe c.tracker reply now in
    let arrived = filter (λ g. not (contains before g.device.mac)) (Tracker.online tracker) in
    push_events (map (online_line tracker.master_mac) arrived) (record c { tracker = tracker })

-- The `Ok` branch of `poll`.
unfoldable pub poll_succeeded : Core → Reply → ℕ → Core
unfolding note_skipped take_reply
poll_succeeded c reply now =
    take_reply
      (note_skipped
        (record c {
          snapshot = record c.snapshot { polls = (c.snapshot.polls + 1) % 2 ^ 64 };
          failures_in_a_row = 0;
          reconnect_at = none;
          reconnect_wait = reconnect_first_wait;
        })
        reply now)
      reply now

module _ (message : ℕ → Bytes) where
  abbrev pub count_failure : Core → Core
  count_failure c = record c {
    snapshot = record c.snapshot { poll_failures = (c.snapshot.poll_failures + 1) % 2 ^ 64 };
    failures_in_a_row = (c.failures_in_a_row + 1) % 2 ^ 32;
  }

  -- The `Err` branch.
  unfoldable pub poll_failed : Core → Dongle.Error → ℕ → Core
  unfolding fail
  poll_failed c e now = fail (count_failure c) (bytes "poll: " ++ Dongle.error_text message e) now

  abbrev after_poll : Core → ℕ → Result Dongle.Error Reply → Core
  after_poll c now (ok reply) = poll_succeeded c reply now
  after_poll c now (err e) = poll_failed c e now

  abbrev after_heartbeat : Core → ℕ → Result Dongle.Error (Unit {0}) → Core
  after_heartbeat c now (ok sent) = record c { heartbeat_sent = true; last_heartbeat = some now }
  after_heartbeat c now (err e) = fail c (bytes "heartbeat: " ++ Dongle.error_text message e) now

  module _ (link : Link) where
    unfoldable pub poll : Core → link.Carrier → ℕ → Core × link.Carrier
    unfolding poll_succeeded poll_failed
    poll c l now = let (r, l') = link.poll l in (after_poll c now r, l')

    unfoldable pub heartbeat : Core → link.Carrier → ℕ → Clock → Core × link.Carrier
    unfolding fail
    heartbeat c l now clock =
        if within_interval now Heartbeat.interval c.last_heartbeat
        then (c, l)
        else (let payload =
              Heartbeat.payload (link.master_mac l) (block default_readings clock)
                (not c.heartbeat_sent) in
            let (r, l') = link.send l c.channel broadcast payload in (after_heartbeat c now r, l'))
