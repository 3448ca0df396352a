-- ===== src/Engine/Failsafe.antt =====
-- src/engine.rs, `drive`, `judge`, `recover` and `tick`: driving the fan groups, and the failsafe.
use fan_control_lian_li_wire.Tracker.Holding.{Holds}
use fan_control_lian_li_wire.Engine.Targets.{Aims, IsAny}
use fan_control_lian_li_wire.Engine.Driving.{settings-drive_group, reach-Aims}
use fan_control_lian_li_wire.Base.{
  ℕ, ◌+◌, ◌%◌, ◌^◌, ◌≡◌, refl, sym, subst, ◌∙◌, inl, inr, Bool, true, ◌&&◌, ◌||◌, Option, none,
  some, List, [], ◌∷◌, arith, ltb, leb, if◌then◌else◌, Bool-cases, Option-cases, find, filter,
  Bytes, bytes_eq, bytes_eq_sound, get, Result-cases,
}
use fan_control_lian_li_wire.Heartbeat.{Clock}
use fan_control_lian_li_wire.Groups.{Group, bound_to, has_fans}
use fan_control_lian_li_wire.Tracker.{
  Tracker, has_mac, macs, contains, group, sweep, lookup_all, fans, sent,
}
use fan_control_lian_li_wire.Tracker.Counts.{find-mac}
use fan_control_lian_li_wire.Engine.{
  poll_failures, reconnect_max_wait, Link, Alarm, dongle, Core, push_event, is_some,
}
use fan_control_lian_li_wire.Engine.Drive.{percent_for, drive_group, drive_groups, drive}
use fan_control_lian_li_wire.Engine.Recover.{
  same_alarm, judge, waits, renewed, reconnected, still_lost, recover,
}
use fan_control_lian_li_wire.Engine.Publish.{publish}
use fan_control_lian_li_wire.Engine.Steady.{Settings, settings, fail-Logged, flush-Logged}
use fan_control_lian_li_wire.Engine.Tick.{tick}
use fan_control_lian_li_wire.Tracker
use fan_control_lian_li_wire.Engine.Poll
use fan_control_lian_li_wire.Engine.Sweep

fans-Holds :
    (t : Tracker) (q : Group → Bool) (order : List Bytes) (m : Bytes)
    → contains (macs (filter q (lookup_all t.groups order))) m ≡ true
    → Holds IsAny t m
unfolding group
fans-Holds t q [] m h = absurd (ground (arith, h))
fans-Holds t q (x ∷ rest) m h = elim (Option-cases (find (has_mac x) t.groups)) [
  | inl e ↦ fans-Holds t q rest m (rw e at h)
  | inr (g, e) ↦ elim (Bool-cases (q g)) [
    | inr f ↦ fans-Holds t q rest m (rw (e, f) at h)
    | inl f ↦ elim (Bool-cases (bytes_eq g.device.mac m)) [
      | inr n ↦ fans-Holds t q rest m (rw (e, f, n) at h)
      | inl s ↦
          let at : x ≡ m = sym (find-mac x t.groups e) ∙ bytes_eq_sound g.device.mac m s in
          record { held = g; found = subst (λ y. find (has_mac y) t.groups ≡ some g) at e; so = tt }
    ]
  ]
]

-- After `drive`, every online fan group bound to the dongle that a percentage is wanted for has the
-- target that this percentage makes of it, and so has every such group, at 100, while the failsafe
-- is in force.
pub drive-Aims :
    (message : ℕ → Bytes) (link : Link) (c : Core) (l : link.Carrier) (now : ℕ) (m : Bytes)
    (percent : ℕ)
    → contains (macs (Tracker.fans c.tracker)) m ≡ true
    → (if is_some c.alarm then some 100 else get c.wanted m) ≡ some percent
    → Holds (Aims percent) (drive message link c l now).0.tracker m
unfolding drive Tracker.fans Tracker.online percent_for
drive-Aims message link c l now m percent i p =
    reach-Aims message link c l (macs (Tracker.fans c.tracker)) now m percent p
      (fans-Holds c.tracker (λ g. bound_to g c.tracker.master_mac && has_fans g) c.tracker.order m
        i)
      i

-- The failsafe is in force exactly while three or more polls have failed in a row.
abbrev pub IsJudged : Core → Type 0
IsJudged c = c.alarm ≡ (if leb 3 c.failures_in_a_row then some dongle else none)

pub same_alarm_sound : (a b : Option Alarm) → same_alarm a b ≡ true → b ≡ a
same_alarm_sound none none h = refl
same_alarm_sound none (some dongle) h = absurd (ground (arith, h))
same_alarm_sound (some dongle) none h = absurd (ground (arith, h))
same_alarm_sound (some dongle) (some dongle) h = refl

pub judge-IsJudged : (c : Core) → IsJudged (judge c)
unfolding judge push_event
judge-IsJudged c =
    let alarm : Option Alarm =
      if leb poll_failures c.failures_in_a_row then some dongle else none in
    elim (Bool-cases (same_alarm alarm c.alarm)) [
      | inl e ↦ rw (e, judge) (same_alarm_sound alarm c.alarm e)
      | inr e ↦ rw (e, judge)
    ]

pub settled_judged :
    (a b : Settings)
    → a ≡ b
    → a.alarm ≡ (if leb 3 a.failures_in_a_row then some dongle else none)
    → b.alarm ≡ (if leb 3 b.failures_in_a_row then some dongle else none)
settled_judged a b e h =
    subst (λ (x : Settings). x.alarm ≡ (if leb 3 x.failures_in_a_row then some dongle else none)) e
      h

module _ (message : ℕ → Bytes) (link : Link) where
  pub settings-drive_groups :
      (c : Core) (l : link.Carrier) (macs : List Bytes) (now : ℕ)
      → settings (drive_groups message link c l macs now).0 ≡ settings c
  unfolding drive_groups
  settings-drive_groups c l [] now = refl
  settings-drive_groups c l (mac ∷ rest) now =
      let next = drive_group message link c l mac now in
      settings-drive_groups next.0 next.1 rest now ∙ settings-drive_group message link c l mac now

  reconnected-IsJudged : (c : Core) (l : link.Carrier) → IsJudged (reconnected message link c l)
  unfolding reconnected
  reconnected-IsJudged c l = judge-IsJudged (renewed message link c l)

  recover-IsJudged :
      (c : Core) (l : link.Carrier) (now : ℕ)
      → IsJudged c
      → IsJudged (recover message link c l now).0
  unfolding recover still_lost
  recover-IsJudged c l now h =
      elim (Bool-cases (ltb c.failures_in_a_row poll_failures || waits now c.reconnect_at)) [
        | inl e ↦ rw (e, recover) h
        | inr e ↦
            elim (Result-cases (link.reconnect l (leb reconnect_max_wait c.reconnect_wait)).0) [
              | inl (a, f) ↦
                  rw (e, f, recover)
                    (reconnected-IsJudged c
                      (link.reconnect l (leb reconnect_max_wait c.reconnect_wait)).1)
              | inr (x, f) ↦
                  rw (e, f, recover)
                    (settled_judged (settings c) _ (sym (fail-Logged c _ now).settings_kept) h)
            ]
      ]

  -- After every tick, whatever the dongle answers, the failsafe is in force exactly if the count of
  -- polls that failed in a row is three or more, and the snapshot says so.
  pub tick-IsJudged :
      (c : Core) (l : link.Carrier) (now : ℕ) (clock : Clock)
      → let c' = (tick message link c l now clock).0 in IsJudged c' × (c'.snapshot.alarm ≡ c'.alarm)
  unfolding tick drive publish
  tick-IsJudged c l now clock =
      let counted = record c {
        snapshot = record c.snapshot { ticks = (c.snapshot.ticks + 1) % 2 ^ 64 };
      } in
      let (c1, l1) = Poll.heartbeat message link counted l now clock in
      let (c2, l2) = Poll.poll message link c1 l1 now in
      let j = judge (Sweep.sweep c2 now) in
      let driven = macs (Tracker.fans j.tracker) in
      let (c3, l3) = drive message link j l2 now in
      let judged =
        settled_judged (settings j) (settings c3) (sym (settings-drive_groups j l2 driven now))
          (judge-IsJudged (Sweep.sweep c2 now)) in
      let c4 = (recover message link c3 l3 now).0 in
      (
        settled_judged (settings c4) _ (sym (flush-Logged c4 now).settings_kept)
            (recover-IsJudged c3 l3 now judged),
        refl,
      )
