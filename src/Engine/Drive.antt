-- ===== src/Engine/Drive.antt =====
-- src/engine.rs, `drive` and `send_if_due`: the sending of the groups' duties.
use fan_control_lian_li_wire.Base.{
  ℕ, ◌-◌, min, max, not, Option, none, some, List, [], ◌∷◌, ◌++◌, map, if◌then◌else◌, take,
  replicate, Bytes, get, bytes, Result, ok, err,
}
use fan_control_lian_li_wire.Discovery.{fans_per_group}
use fan_control_lian_li_wire.Groups.{Group, due}
use fan_control_lian_li_wire.Tracker.{
  Tracker, group, fans, slot, same_target, retarget, set_target, sent,
}
use fan_control_lian_li_wire.Engine.{failsafe_percent, Link, Core, text, is_some}
use fan_control_lian_li_wire.Engine.Log.{fail, log_change}
use fan_control_lian_li_wire.Dongle
use fan_control_lian_li_wire.Groups
use fan_control_lian_li_wire.Speed
use fan_control_lian_li_wire.Tracker

abbrev pub failed_send : (ℕ → Bytes) → Bytes → Dongle.Error → Bytes
failed_send message mac e = text mac ++ bytes ": " ++ Dongle.error_text message e

-- What a group is driven at, if it is.
unfoldable pub percent_for : Core → Bytes → Option ℕ
percent_for c mac = if is_some c.alarm then some failsafe_percent else get c.wanted mac

-- The duties wanted of a group: the first `fan_count` slots.
unfoldable pub wanted_duties : ℕ → ℕ → Bytes
wanted_duties percent fan_count =
    let driven = min fan_count fans_per_group in
    replicate driven (Speed.duty_from_percent percent) ++ replicate (fans_per_group - driven) 0

module _ (message : ℕ → Bytes) (link : Link) where
  abbrev pub after_send :
      Core → Bytes → ℕ → Result Dongle.Error (Unit {0}) × link.Carrier → Core × link.Carrier
  after_send c mac now (ok done, l) = (record c { tracker = Tracker.sent c.tracker mac now }, l)
  after_send c mac now (err e, l) = (fail c (failed_send message mac e) now, l)

  -- The frame that carries a group's target.
  unfoldable pub send_target : Core → link.Carrier → Group → Bytes → ℕ → Core × link.Carrier
  unfolding fail
  send_target c l g target now =
      let mac = g.device.mac in
      let payload =
        Speed.payload g.device (link.master_mac l) c.channel (Tracker.slot c.tracker mac) target in
      after_send c mac now (link.send l g.device.channel g.device.receiver payload)

  unfoldable pub send_if_due : Core → link.Carrier → Bytes → ℕ → Core × link.Carrier
  unfolding send_target
  send_if_due c l mac now = elim (Tracker.group c.tracker mac) [
    | none ↦ (c, l)
    | some g ↦
        if not (Groups.due g now)
        then (c, l)
        else elim g.target [ none ↦ (c, l) | some target ↦ send_target c l g target now ]
  ]

  -- A change of a group's target is logged.
  unfoldable pub note_change : Core → Group → ℕ → Bytes → ℕ → Core
  note_change c g percent target now =
      if same_target g.target (some target)
      then c
      else log_change c g.device.mac percent
          (take (max 1 (min g.device.fan_count fans_per_group)) target) now

  abbrev pub retargeted :
      Core → link.Carrier → Group → ℕ → ℕ → Tracker × Option Bytes → Core × link.Carrier
  retargeted c l g percent now (tracker, none) = (record c { tracker = tracker }, l)
  retargeted c l g percent now (tracker, some target) =
      send_if_due (note_change (record c { tracker = tracker }) g percent target now) l g.device.mac
        now

  -- One round of `drive`; the group that is found has the address that was asked for.
  unfoldable pub drive_group : Core → link.Carrier → Bytes → ℕ → Core × link.Carrier
  unfolding send_if_due note_change
  drive_group c l mac now = elim (percent_for c mac) [
    | none ↦ (c, l)
    | some percent ↦ elim (Tracker.group c.tracker mac) [
      | none ↦ (c, l)
      | some g ↦
          retargeted c l g percent now
            (Tracker.set_target c.tracker mac (wanted_duties percent g.device.fan_count))
    ]
  ]

  unfoldable pub drive_groups : Core → link.Carrier → List Bytes → ℕ → Core × link.Carrier
  unfolding drive_group
  drive_groups c l [] now = (c, l)
  drive_groups c l (mac ∷ rest) now =
      let (c', l') = drive_group c l mac now in drive_groups c' l' rest now

  unfoldable pub drive : Core → link.Carrier → ℕ → Core × link.Carrier
  unfolding drive_groups
  drive c l now = drive_groups c l (map (λ g. g.device.mac) (Tracker.fans c.tracker)) now
