-- ===== src/Engine/Tick.antt =====
-- src/engine.rs, `tick` and `shutdown`, and the requests that are served between ticks.
use fan_control_lian_li_wire.Base.{
  ℕ, ◌+◌, ◌%◌, ◌^◌, none, some, List, [], ◌∷◌, if◌then◌else◌, Bytes, bytes, Result, ok, err,
}
use fan_control_lian_li_wire.Heartbeat.{Clock}
use fan_control_lian_li_wire.Groups.{Group, acknowledged, keep}
use fan_control_lian_li_wire.Tracker.{Tracker, macs, group, sweep, fans, slot, sent}
use fan_control_lian_li_wire.Engine.{Link, Core, push_event, want, release}
use fan_control_lian_li_wire.Engine.Log.{flush_fail_log, flush_change_log}
use fan_control_lian_li_wire.Engine.Recover.{judge, recover}
use fan_control_lian_li_wire.Engine.Drive.{drive}
use fan_control_lian_li_wire.Engine.Publish.{publish}
use fan_control_lian_li_wire.Dongle
use fan_control_lian_li_wire.Groups
use fan_control_lian_li_wire.Speed
use fan_control_lian_li_wire.Tracker
use fan_control_lian_li_wire.Engine.Poll
use fan_control_lian_li_wire.Engine.Sweep

module _ (message : ℕ → Bytes) (link : Link) where
  unfoldable pub tick : Core → link.Carrier → ℕ → Clock → Core × link.Carrier
  tick c l now clock =
      let counted = record c {
        snapshot = record c.snapshot { ticks = (c.snapshot.ticks + 1) % 2 ^ 64 };
      } in
      let (c1, l1) = Poll.heartbeat message link counted l now clock in
      let (c2, l2) = Poll.poll message link c1 l1 now in
      let (c3, l3) = drive message link (judge (Sweep.sweep c2 now)) l2 now in
      let (c4, l4) = recover message link c3 l3 now in
      (publish (flush_fail_log (flush_change_log c4 now) now) now, l4)

  abbrev after_last :
      Core → Bytes → ℕ → Result Dongle.Error (Unit {0}) × link.Carrier → Core × link.Carrier
  after_last c mac now (ok done, l) = (record c { tracker = Tracker.sent c.tracker mac now }, l)
  after_last c mac now (err e, l) = (c, l)

  -- One round of `shutdown`.
  unfoldable pub last_send : Core → link.Carrier → Bytes → ℕ → Core × link.Carrier
  last_send c l mac now = elim (Tracker.group c.tracker mac) [
    | none ↦ (c, l)
    | some g ↦ elim g.target [
      | none ↦ (c, l)
      | some target ↦
          if Groups.acknowledged g now
          then (c, l)
          else (let payload =
                Speed.payload g.device (link.master_mac l) c.channel (Tracker.slot c.tracker mac)
                  target in
              after_last c mac now (link.send l g.device.channel g.device.receiver payload))
    ]
  ]

  unfoldable pub last_sends : Core → link.Carrier → List Bytes → ℕ → Core × link.Carrier
  unfolding last_send
  last_sends c l [] now = (c, l)
  last_sends c l (mac ∷ rest) now =
      let (c', l') = last_send c l mac now in last_sends c' l' rest now

  unfoldable pub shutdown : Core → link.Carrier → ℕ → Core × link.Carrier
  unfolding last_sends push_event
  shutdown c l now =
      let (c', l') = last_sends c l (macs (Tracker.fans c.tracker)) now in
      (publish (push_event (bytes "stopping; the groups keep their last duty") c') now, l')

-- What a host asks of the loop between ticks.
pub data Request : Type 0 where
  want_percent : Bytes → ℕ → Request
  release_group : Bytes → Request

unfoldable pub serve : Core → Request → Core
serve c (want_percent mac percent) = want c mac percent
serve c (release_group mac) = release c mac

-- The requests taken before a tick, in the order they were made.
unfoldable pub serve_all : Core → List Request → Core
unfolding serve
serve_all c [] = c
serve_all c (r ∷ rs) = serve_all (serve c r) rs
