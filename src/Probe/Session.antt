-- ===== src/Probe/Session.antt =====
-- src/bin/probe.rs, `Session`: the dongle with the tracker and heartbeat that go with it. The clocks
-- and the sleeping are the system's, the record `Time`.
use fan_control_lian_li_wire.Base.{
  ℕ, zero, suc, ◌+◌, ◌/◌, Bool, true, false, not, Option, none, some, List, [], ◌∷◌, ◌++◌, leb,
  if◌then◌else◌, length, Bytes, bytes, decimal, list_text, pad_left, secs, millis, as_secs,
  duration_since, Result, ok, err, and_then,
}
use fan_control_lian_li_wire.Discovery.{Reply}
use fan_control_lian_li_wire.Probe.Text.{fans, mac}
use fan_control_lian_li_wire.Frame.{broadcast}
use fan_control_lian_li_wire.Heartbeat.{interval, default_readings, Clock, block, payload}
use fan_control_lian_li_wire.Clock.{SystemTime, local}
use fan_control_lian_li_wire.Groups.{Group, new, acknowledged, due}
use fan_control_lian_li_wire.Tracker.{Tracker, group, observe, slot, set_target, sent}
use fan_control_lian_li_wire.Engine.{within_interval}
use fan_control_lian_li_wire.Dongle.{Port, Dongle, send}
use fan_control_lian_li_wire.Dongle
use fan_control_lian_li_wire.Groups
use fan_control_lian_li_wire.Heartbeat
use fan_control_lian_li_wire.Speed
use fan_control_lian_li_wire.Tracker

abbrev pub poll_gap : ℕ
poll_gap = secs 1

abbrev pub ack_poll_gap : ℕ
ack_poll_gap = millis 250

abbrev pub ack_limit : ℕ
ack_limit = secs 5

-- As many rounds as fit into the limit, when each sleeps for its gap.
abbrev pub ack_rounds : ℕ
ack_rounds = ack_limit / ack_poll_gap

pub record Time : Type 1 where
  pub World : Type 0
  pub now : World → ℕ × World  -- `Instant::now`
  pub local_time : World → SystemTime × World  -- `GetLocalTime`
  pub sleep : World → ℕ → World

-- Why a call does not succeed: the message of an `Err`, that a loop goes on after the rounds that
-- it was given, or the panic of an `Instant` from which more is taken than it has.
pub data Stop : Type 0 where
  said : Bytes → Stop
  unfinished : Stop
  overflow : Stop

-- The last two fields are outside of the source's struct: the system's clocks, and what is printed.
pub record Session (port : Port) (time : Time) : Type 0 where
  pub dongle : Dongle port
  pub tracker : Tracker
  pub heartbeat_sent : Bool
  pub last_heartbeat : Option ℕ
  pub world : time.World
  pub printed : List Bytes

module _ {port : Port} {time : Time} where
  abbrev pub at_world : Session port time → time.World → Session port time
  at_world s w = record s { world = w }

  abbrev pub say : Bytes → Session port time → Session port time
  say line s = record s { printed = s.printed ++ (line ∷ []) }

  -- `Instant::now`, and `thread::sleep`.
  abbrev pub now : Session port time → ℕ × Session port time
  now s = let (t, w) = time.now s.world in (t, at_world s w)

  abbrev pub sleep : Session port time → ℕ → Session port time
  sleep s d = at_world s (time.sleep s.world d)

abbrev pub duty_text : Group → Bytes
duty_text g = list_text (fans g.device.duty g.device.fan_count)

abbrev pub rpm_text : Group → Bytes
rpm_text g = list_text (fans g.device.rpm g.device.fan_count)

module _ (message : ℕ → Bytes) (port : Port) (time : Time) where
  abbrev pub Answer : Type 0 → Type 0
  Answer A = Result Stop A × Session port time

  -- `Session::open`, on a dongle that is open.
  unfoldable pub open_on : Dongle port → time.World → List Bytes → Session port time
  open_on d w printed = record {
    dongle = d;
    tracker = Tracker.new d.master.master_mac;
    heartbeat_sent = false;
    last_heartbeat = none;
    world = w;
    printed = printed;
  }

  abbrev pub beaten :
      Session port time → ℕ → Result Dongle.Error (Unit {0}) × Dongle port → Answer (Unit {0})
  beaten s started (ok done, d) =
      (ok tt, record s { dongle = d; heartbeat_sent = true; last_heartbeat = some started })
  beaten s started (err e, d) =
      (err (said (bytes "heartbeat: " ++ Dongle.error_text message e)), record s { dongle = d })

  unfoldable pub heartbeat : Session port time → Answer (Unit {0})
  heartbeat s0 =
      let (started, s) = now s0 in
      if within_interval started Heartbeat.interval s.last_heartbeat
      then (ok tt, s)
      else (let (clock, w) = time.local_time s.world in
          let block' = Heartbeat.block default_readings (local clock) in
          let payload' =
            Heartbeat.payload s.dongle.master.master_mac block' (not s.heartbeat_sent) in
          beaten (at_world s w) started (Dongle.send port s.dongle broadcast payload'))

  abbrev pub heard : Session port time → Result Dongle.Error Reply × Dongle port → Answer (Unit {0})
  heard s (ok answer, d) =
      let (seen, s') = now s in
      (ok tt, record s' { dongle = d; tracker = Tracker.observe s.tracker answer seen })
  heard s (err e, d) = (err (said (Dongle.error_text message e)), record s { dongle = d })

  unfoldable pub poll : Session port time → Answer (Unit {0})
  poll s = heard s (Dongle.poll port s.dongle)

  abbrev pub went :
      Session port time
      → Bytes
      → Bytes
      → ℕ
      → Result Dongle.Error (Unit {0}) × Dongle port
      → Answer (Option Bytes)
  went s address target at (ok done, d) =
      (ok (some target), record s { dongle = d; tracker = Tracker.sent s.tracker address at })
  went s address target at (err e, d) =
      (err (said (Dongle.error_text message e)), record s { dongle = d })

  -- The frame that carries a group's target.
  unfoldable pub send_target : Session port time → Bytes → Group → Bytes → ℕ → Answer (Option Bytes)
  send_target s address g target at =
      let payload' =
        Speed.payload g.device s.dongle.master.master_mac s.dongle.channel
          (Tracker.slot s.tracker address) target in
      went s address target at (Dongle.send port s.dongle g.device.receiver payload')

  unfoldable pub send_if_due : Session port time → Bytes → Answer (Option Bytes)
  send_if_due s0 address =
      let (at, s) = now s0 in
      elim (Tracker.group s.tracker address) [
        | none ↦ (err (said (bytes "group " ++ mac address ++ bytes " vanished")), s)
        | some g ↦ elim (Groups.due g at) [
          | false ↦ (ok none, s)
          | true ↦ elim g.target [
            | none ↦ (err (said (bytes "no target set")), s)
            | some target ↦ send_target s address g target at
          ]
        ]
      ]

  -- What `apply` and `hold` do before they look at the group: the last call is the poll.
  unfoldable pub exchange : Session port time → Bytes → ℕ → Answer (Unit {0})
  exchange s address gap =
      and_then (heartbeat s)
        λ beat s1. and_then (send_if_due s1 address) λ sent s2. poll (sleep s2 gap)

  abbrev pub acknowledged_line : Bytes → ℕ → Group → Bytes
  acknowledged_line what polls g =
      what
      ++ bytes ": acknowledged after "
      ++ decimal polls
      ++ bytes " polls, duty "
      ++ duty_text g
      ++ bytes " rpm "
      ++ rpm_text g

  abbrev pub not_acknowledged : Bytes → Group → Bytes
  not_acknowledged what g =
      what
      ++ bytes ": not acknowledged within "
      ++ decimal (as_secs ack_limit)
      ++ bytes " s; group reports duty "
      ++ duty_text g

  -- The loop of `apply`, which has run `polls` rounds.
  unfoldable pub apply_from : ℕ → Session port time → Bytes → Bytes → ℕ → ℕ → Answer (Unit {0})
  apply_from zero s address what started polls = (err unfinished, s)
  apply_from (suc rounds) s address what started polls =
      and_then (exchange s address ack_poll_gap) λ done s1.
        elim (Tracker.group s1.tracker address) [
          | none ↦ (err (said (bytes "group vanished")), s1)
          | some g ↦
              let (seen, s2) = now s1 in
              elim (Groups.acknowledged g seen) [
                | true ↦ (ok tt, say (acknowledged_line what (polls + 1) g) s2)
                | false ↦
                    let (after, s3) = now s2 in
                    elim (leb ack_limit (duration_since after started)) [
                      | true ↦ (err (said (not_acknowledged what g)), s3)
                      | false ↦ apply_from rounds s3 address what started (polls + 1)
                    ]
              ]
        ]

  abbrev pub applied : Bytes → Bytes → Session port time → Option Bytes → Answer (Unit {0})
  applied address what s none = (err (said (bytes "group " ++ mac address ++ bytes " unknown")), s)
  applied address what s (some prepared) =
      let line =
        what
        ++ bytes ": sending "
        ++ list_text prepared
        ++ bytes " to slot "
        ++ decimal (Tracker.slot s.tracker address) in
      let (started, s') = now (say line s) in apply_from ack_rounds s' address what started 0

  unfoldable pub apply : Session port time → Bytes → Bytes → Bytes → Answer (Unit {0})
  unfolding apply_from
  apply s address wanted what =
      let (tracker, prepared) = Tracker.set_target s.tracker address wanted in
      applied address what (record s { tracker = tracker }) prepared

  abbrev pub hold_line : ℕ → Group → ℕ → Bytes
  hold_line started g seen =
      bytes "  +"
      ++ pad_left b' ' 2 (decimal (as_secs (duration_since seen started)))
      ++ bytes "s duty "
      ++ duty_text g
      ++ bytes " rpm "
      ++ rpm_text g
      ++ (if Groups.acknowledged g seen then [] else bytes " (not acknowledged)")

  -- The loop of `hold`.
  unfoldable pub hold_from : ℕ → Session port time → Bytes → ℕ → ℕ → Answer (Unit {0})
  hold_from zero s address length started = (err unfinished, s)
  hold_from (suc rounds) s address length started =
      and_then (exchange s address poll_gap) λ done s1.
        let (seen, s2) = now s1 in
        elim (Tracker.group s2.tracker address) [
          | none ↦ (err (said (bytes "group vanished")), s2)
          | some g ↦
              let s3 = say (hold_line started g seen) s2 in
              elim (leb length (duration_since seen started)) [
                | true ↦ (ok tt, s3)
                | false ↦ hold_from rounds s3 address length started
              ]
        ]

  unfoldable pub hold : Session port time → Bytes → ℕ → Answer (Unit {0})
  unfolding hold_from
  hold s address length =
      let (started, s') = now s in hold_from (suc (length / poll_gap)) s' address length started
