-- ===== src/Engine/Outage.antt =====
-- src/engine.rs, `tick`: a dongle that is gone.
use fan_control_lian_li_wire.Base.{
  ℕ, ◌+◌, ◌%◌, ◌^◌, ◌<◌, ◌≡◌, refl, ap, ◌∙◌, inl, inr, Bool, not, ◌||◌, Option, none, some, List,
  [], ◌∷◌, ◌++◌, arith, ltb, leb, if◌then◌else◌, Bool-cases, length, Bytes, bytes, err,
  Result-cases,
}
use fan_control_lian_li_wire.Engine.Publish.{publish}
use fan_control_lian_li_wire.Engine.Log.{flush_fail_log}
use fan_control_lian_li_wire.Heartbeat.{interval, default_readings, Clock, block, payload}
use fan_control_lian_li_wire.Frame.{broadcast}
use fan_control_lian_li_wire.Tracker.{Tracker, new, macs, group, keeps, sweep, fans, sent}
use fan_control_lian_li_wire.Engine.{
  poll_failures, reconnect_max_wait, Link, Alarm, dongle, Core, push_event, text, within_interval,
}
use fan_control_lian_li_wire.Engine.Poll.{count_failure, poll_failed}
use fan_control_lian_li_wire.Engine.Drive.{drive}
use fan_control_lian_li_wire.Engine.Recover.{same_alarm, judge, waits, still_lost, recover}
use fan_control_lian_li_wire.Engine.Steady.{Settings, fail-Logged, flush-Logged, settings-sweep}
use fan_control_lian_li_wire.Engine.Tick.{tick}
use fan_control_lian_li_wire.Engine.Failsafe.{IsJudged, settings-drive_groups, tick-IsJudged}
use fan_control_lian_li_wire.Engine
use fan_control_lian_li_wire.Heartbeat
use fan_control_lian_li_wire.Dongle
use fan_control_lian_li_wire.Tracker
use fan_control_lian_li_wire.Engine.Poll
use fan_control_lian_li_wire.Engine.Sweep

-- No poll and no reconnect of this link succeeds.
pub record IsGone (link : Link) : Type 0 where
  pub silent : (l : link.Carrier) → (e : Dongle.Error) × ((link.poll l).0 ≡ err e)
  pub lost :
      (l : link.Carrier) (every_channel : Bool)
      → (e : Dongle.Error) × ((link.reconnect l every_channel).0 ≡ err e)

pub failures-judge : (c : Core) → (judge c).failures_in_a_row ≡ c.failures_in_a_row
unfolding judge push_event
failures-judge c =
    let alarm : Option Alarm =
      if leb poll_failures c.failures_in_a_row then some dongle else none in
    elim (Bool-cases (same_alarm alarm c.alarm)) [ inl e ↦ rw (e, judge) | inr e ↦ rw (e, judge) ]

module _ (message : ℕ → Bytes) (link : Link) where
  -- A run of ticks at these times.
  pub ticks : Core → link.Carrier → List (ℕ × Clock) → Core × link.Carrier
  ticks c l [] = (c, l)
  ticks c l ((now, clock) ∷ rest) =
      let (c', l') = tick message link c l now clock in ticks c' l' rest

  pub failures-heartbeat :
      (c : Core) (l : link.Carrier) (now : ℕ) (clock : Clock)
      → (Poll.heartbeat message link c l now clock).0.failures_in_a_row ≡ c.failures_in_a_row
  unfolding Poll.heartbeat
  failures-heartbeat c l now clock =
      elim (Bool-cases (within_interval now Heartbeat.interval c.last_heartbeat)) [
        | inl e ↦ rw (e, Poll.heartbeat)
        | inr e ↦
            let payload =
              Heartbeat.payload (link.master_mac l) (block default_readings clock)
                (not c.heartbeat_sent) in
            elim (Result-cases (link.send l c.channel broadcast payload).0) [
              | inl (a, f) ↦ rw (e, f, Poll.heartbeat)
              | inr (x, f) ↦
                  rw (e, f, Poll.heartbeat)
                    (ap (λ (s : Settings). s.failures_in_a_row)
                      (fail-Logged c (bytes "heartbeat: " ++ Dongle.error_text message x)
                        now).settings_kept)
            ]
      ]

  failures-poll :
      (c : Core) (l : link.Carrier) (now : ℕ) (e : Dongle.Error)
      → (link.poll l).0 ≡ err e
      → (Poll.poll message link c l now).0.failures_in_a_row ≡ (c.failures_in_a_row + 1) % 2 ^ 32
  unfolding Poll.poll poll_failed
  failures-poll c l now e h =
      rw (h, Poll.poll)
        (ap (λ (s : Settings). s.failures_in_a_row)
          (fail-Logged (count_failure message c) (bytes "poll: " ++ Dongle.error_text message e)
            now).settings_kept)

  failures-recover :
      (c : Core) (l : link.Carrier) (now : ℕ)
      → IsGone link
      → (recover message link c l now).0.failures_in_a_row ≡ c.failures_in_a_row
  unfolding recover still_lost
  failures-recover c l now gone =
      elim (Bool-cases (ltb c.failures_in_a_row poll_failures || waits now c.reconnect_at)) [
        | inl e ↦ rw (e, recover)
        | inr e ↦
            let x = gone.lost l (leb reconnect_max_wait c.reconnect_wait) in
            rw (e, x.1, recover)
              (ap (λ (s : Settings). s.failures_in_a_row) (fail-Logged c _ now).settings_kept)
      ]

  failures-tick :
      (c : Core) (l : link.Carrier) (now : ℕ) (clock : Clock)
      → IsGone link
      → (tick message link c l now clock).0.failures_in_a_row ≡ (c.failures_in_a_row + 1) % 2 ^ 32
  unfolding tick drive publish flush_fail_log
  failures-tick c l now clock gone =
      let counted = record c {
        snapshot = record c.snapshot { ticks = (c.snapshot.ticks + 1) % 2 ^ 64 };
      } in
      let (c1, l1) = Poll.heartbeat message link counted l now clock in
      let (c2, l2) = Poll.poll message link c1 l1 now in
      let j = judge (Sweep.sweep c2 now) in
      let (c3, l3) = drive message link j l2 now in
      let c4 = (recover message link c3 l3 now).0 in
      ap (λ (s : Settings). s.failures_in_a_row) (flush-Logged c4 now).settings_kept
      ∙ failures-recover c3 l3 now gone
      ∙ ap (λ (s : Settings). s.failures_in_a_row)
          (settings-drive_groups message link j l2 (macs (Tracker.fans j.tracker)) now)
      ∙ failures-judge (Sweep.sweep c2 now)
      ∙ ap (λ (s : Settings). s.failures_in_a_row) (settings-sweep c2 now)
      ∙ failures-poll c1 l1 now (gone.silent l1).0 (gone.silent l1).1
      ∙ ap (λ n. (n + 1) % 2 ^ 32) (failures-heartbeat counted l now clock)

  failures-ticks :
      (c : Core) (l : link.Carrier) (rounds : List (ℕ × Clock))
      → IsGone link
      → c.failures_in_a_row + length rounds < 2 ^ 32
      → (ticks c l rounds).0.failures_in_a_row ≡ c.failures_in_a_row + length rounds
  unfolding ticks
  failures-ticks c l [] gone h = omega arith
  failures-ticks c l ((now, clock) ∷ rest) gone h =
      let next = tick message link c l now clock in
      let f = failures-tick c l now clock gone in
      failures-ticks next.0 next.1 rest gone (omega (arith, f, h)) ∙ omega (arith, f, h)

  ticks-IsJudged :
      (c : Core) (l : link.Carrier) (rounds : List (ℕ × Clock))
      → IsJudged c
      → IsJudged (ticks c l rounds).0
  unfolding ticks
  ticks-IsJudged c l [] h = h
  ticks-IsJudged c l ((now, clock) ∷ rest) h =
      let next = tick message link c l now clock in
      ticks-IsJudged next.0 next.1 rest (tick-IsJudged message link c l now clock).0

  -- While no poll and no reconnect succeeds, a new core raises the failsafe with the third tick,
  -- not before, and keeps it up; below 2^32 ticks, where the counter would wrap.
  pub alarm-ticks :
      (master : Bytes) (channel : ℕ) (l : link.Carrier) (rounds : List (ℕ × Clock))
      → IsGone link
      → length rounds < 2 ^ 32
      → (ticks (Engine.new master channel) l rounds).0.alarm
        ≡ (if leb 3 (length rounds) then some dongle else none)
  unfolding Engine.new
  alarm-ticks master channel l rounds gone h =
      ticks-IsJudged (Engine.new master channel) l rounds refl
      ∙ ap (λ n. if leb 3 n then some dongle else none)
          (failures-ticks (Engine.new master channel) l rounds gone (omega (arith, h))
            ∙ omega arith)
