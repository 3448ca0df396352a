-- ===== src/Engine/Recover.antt =====
-- src/engine.rs, `judge` and `recover`: the failsafe, and getting the dongle back.
use fan_control_lian_li_wire.Base.{
  ℕ, ◌+◌, ◌*◌, ◌%◌, ◌^◌, min, Bool, true, false, ◌||◌, Option, none, some, ◌++◌, ltb, leb,
  if◌then◌else◌, Bytes, bytes, decimal, as_secs, Result, ok, err,
}
use fan_control_lian_li_wire.Engine.{
  failsafe_percent, poll_failures, reconnect_first_wait, reconnect_max_wait, Link, Alarm, dongle,
  alarm_text, Core, push_event, text,
}
use fan_control_lian_li_wire.Engine.Log.{fail}
use fan_control_lian_li_wire.Dongle

abbrev pub same_alarm : Option Alarm → Option Alarm → Bool
same_alarm none none = true
same_alarm none (some dongle) = false
same_alarm (some dongle) none = false
same_alarm (some dongle) (some dongle) = true

abbrev pub alarm_line : Option Alarm → Bytes
alarm_line none = bytes "failsafe cleared; targets resume"
alarm_line (some why) =
    bytes "failsafe: "
    ++ alarm_text why
    ++ bytes "; every reachable group to "
    ++ decimal failsafe_percent
    ++ bytes "%"

unfoldable pub judge : Core → Core
unfolding push_event
judge c =
    let alarm = if leb poll_failures c.failures_in_a_row then some dongle else none in
    if same_alarm alarm c.alarm
    then c
    else record (push_event (alarm_line alarm) c) { alarm = alarm }

abbrev pub waits : ℕ → Option ℕ → Bool
waits now none = false
waits now (some at) = ltb now at

module _ (message : ℕ → Bytes) (link : Link) where
  -- The `Ok` branch of `recover`, before it calls `judge`.
  unfoldable pub renewed : Core → link.Carrier → Core
  unfolding push_event text
  renewed c l =
      push_event
        (bytes "reconnected: master "
          ++ text (link.master_mac l)
          ++ bytes " channel "
          ++ decimal (link.channel l))
        (record c {
          channel = link.channel l;
          snapshot = record c.snapshot {
            master_mac = link.master_mac l;
            channel = link.channel l;
            reconnects = (c.snapshot.reconnects + 1) % 2 ^ 64;
          };
          failures_in_a_row = 0;
          reconnect_at = none;
          reconnect_wait = reconnect_first_wait;
          heartbeat_sent = false;
          last_heartbeat = none;
        })

  unfoldable pub reconnected : Core → link.Carrier → Core
  unfolding judge renewed
  reconnected c l = judge (renewed c l)

  -- The `Err` branch.
  unfoldable pub still_lost : Core → Bool → Dongle.Error → ℕ → Core
  unfolding fail
  still_lost c every_channel e now =
      let scope = if every_channel then bytes "reconnect on every channel" else bytes "reconnect" in
      record (fail c
        (scope
          ++ bytes ": "
          ++ Dongle.error_text message e
          ++ bytes "; next try in "
          ++ decimal (as_secs c.reconnect_wait)
          ++ bytes " s")
        now) {
          reconnect_at = some (now + c.reconnect_wait);
          reconnect_wait = min (c.reconnect_wait * 2) reconnect_max_wait;
        }

  abbrev after_reconnect :
      Core → Bool → ℕ → Result Dongle.Error (Unit {0}) × link.Carrier → Core × link.Carrier
  after_reconnect c every_channel now (ok done, l) = (reconnected c l, l)
  after_reconnect c every_channel now (err e, l) = (still_lost c every_channel e now, l)

  unfoldable pub recover : Core → link.Carrier → ℕ → Core × link.Carrier
  unfolding reconnected still_lost
  recover c l now =
      if ltb c.failures_in_a_row poll_failures || waits now c.reconnect_at
      then (c, l)
      else (let every_channel = leb reconnect_max_wait c.reconnect_wait in
          after_reconnect c every_channel now (link.reconnect l every_channel))
