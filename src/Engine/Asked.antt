-- ===== src/Engine/Asked.antt =====
-- src/engine.rs: what becomes of a request in the next round of the loop.
use fan_control_lian_li_wire.Base.{
  ℕ, ◌+◌, ◌%◌, ◌^◌, min, max, ◌≡◌, refl, sym, subst, ◌∙◌, inl, inr, true, false, ◌||◌, Option, none,
  some, List, [], ◌∷◌, ◌++◌, ltb, leb, if◌then◌else◌, Bool-cases, All, Bytes, bytes_eq,
  bytes_eq_refl, get, get-insert, get-remove, Result-cases,
}
use fan_control_lian_li_wire.Heartbeat.{Clock}
use fan_control_lian_li_wire.Groups.{online}
use fan_control_lian_li_wire.Tracker.{Tracker, macs, contains, group, sweep, fans}
use fan_control_lian_li_wire.Tracker.Holding.{Holds}
use fan_control_lian_li_wire.Engine.{
  poll_failures, reconnect_max_wait, Link, Alarm, dongle, Core, push_event, clamp_percent, want,
  is_some, release, take_events,
}
use fan_control_lian_li_wire.Engine.Log.{flush_fail_log, flush_change_log}
use fan_control_lian_li_wire.Engine.Recover.{
  same_alarm, judge, waits, renewed, reconnected, still_lost, recover,
}
use fan_control_lian_li_wire.Engine.Drive.{drive}
use fan_control_lian_li_wire.Engine.Steady.{fail-Logged}
use fan_control_lian_li_wire.Engine.Targets.{Aims}
use fan_control_lian_li_wire.Engine.Failsafe.{drive-Aims}
use fan_control_lian_li_wire.Engine.Kept.{
  Kept, Kept-then, same-Kept, judge-Kept, sweep-Kept, heartbeat-Kept, poll-Kept,
}
use fan_control_lian_li_wire.Engine.Publish.{publish}
use fan_control_lian_li_wire.Engine.Tick.{
  tick, Request, want_percent, release_group, serve, serve_all,
}
use fan_control_lian_li_wire.Engine.Requests.{wanted-release}
use fan_control_lian_li_wire.Engine.Host.{Loop, round}
use fan_control_lian_li_wire.Engine.Poll
use fan_control_lian_li_wire.Engine.Sweep
use fan_control_lian_li_wire.Tracker

judge-tracker : (c : Core) → (judge c).tracker ≡ c.tracker
unfolding judge push_event
judge-tracker c =
    let alarm : Option Alarm =
      if leb poll_failures c.failures_in_a_row then some dongle else none in
    elim (Bool-cases (same_alarm alarm c.alarm)) [ inl e ↦ rw (e, judge) | inr e ↦ rw (e, judge) ]

-- The group that a request is for.
abbrev pub about : Request → Bytes
about (want_percent mac percent) = mac
about (release_group mac) = mac

-- The requests for other groups change nothing that is wanted of this one.
wanted-serve_others :
    (c : Core) (later : List Request) (mac : Bytes)
    → All (λ r. bytes_eq (about r) mac ≡ false) later
    → get (serve_all c later).wanted mac ≡ get c.wanted mac
unfolding serve_all serve want
wanted-serve_others c [] mac others = refl
wanted-serve_others c (want_percent to percent ∷ later) mac others =
    wanted-serve_others (want c to percent) later mac others.1
    ∙ get-insert c.wanted to mac (clamp_percent percent)
    ∙ rw others.0 refl
wanted-serve_others c (release_group to ∷ later) mac others =
    wanted-serve_others (release c to) later mac others.1
    ∙ rw (wanted-release c to) (get-remove c.wanted to mac ∙ rw others.0 refl)

-- The last request for a group decides.
wanted-serve_all :
    (c : Core) (rs later : List Request) (mac : Bytes) (percent : ℕ)
    → All (λ r. bytes_eq (about r) mac ≡ false) later
    → get (serve_all c (rs ++ (want_percent mac percent ∷ later))).wanted mac
      ≡ some (clamp_percent percent)
unfolding serve_all serve want
wanted-serve_all c [] later mac percent others =
    wanted-serve_others (want c mac percent) later mac others
    ∙ get-insert c.wanted mac mac (clamp_percent percent)
    ∙ rw (bytes_eq_refl mac) refl
wanted-serve_all c (r ∷ rs) later mac percent others =
    wanted-serve_all (serve c r) rs later mac percent others

module _ (message : ℕ → Bytes) (link : Link) where
  recover-tracker :
      (c : Core) (l : link.Carrier) (now : ℕ) → (recover message link c l now).0.tracker ≡ c.tracker
  unfolding recover reconnected renewed still_lost push_event
  recover-tracker c l now =
      elim (Bool-cases (ltb c.failures_in_a_row poll_failures || waits now c.reconnect_at)) [
        | inl e ↦ rw (e, recover) refl
        | inr e ↦
            let every_channel = leb reconnect_max_wait c.reconnect_wait in
            let l' = (link.reconnect l every_channel).1 in
            elim (Result-cases (link.reconnect l every_channel).0) [
              | inl (a, f) ↦ rw (e, recover, f) (judge-tracker (renewed message link c l'))
              | inr (x, f) ↦ rw (e, recover, f) ((fail-Logged c _ now).tracker_kept)
            ]
      ]

  -- A tick up to `drive`: the heartbeat, the poll, the sweep and the judgement.
  abbrev pub before_drive : Core → link.Carrier → ℕ → Clock → Core × link.Carrier
  before_drive c l now clock =
      let counted = record c {
        snapshot = record c.snapshot { ticks = (c.snapshot.ticks + 1) % 2 ^ 64 };
      } in
      let (c1, l1) = Poll.heartbeat message link counted l now clock in
      let (c2, l2) = Poll.poll message link c1 l1 now in (judge (Sweep.sweep c2 now), l2)

  before_drive-Kept :
      (c : Core) (l : link.Carrier) (now : ℕ) (clock : Clock)
      → Kept c (before_drive c l now clock).0
  before_drive-Kept c l now clock =
      let counted = record c {
        snapshot = record c.snapshot { ticks = (c.snapshot.ticks + 1) % 2 ^ 64 };
      } in
      let (c1, l1) = Poll.heartbeat message link counted l now clock in
      let c2 = (Poll.poll message link c1 l1 now).0 in
      Kept-then (same-Kept c counted refl refl) (
        Kept-then (heartbeat-Kept message link counted l now clock) (
          Kept-then (poll-Kept message link c1 l1 now)
            (Kept-then (sweep-Kept c2 now) (judge-Kept (Sweep.sweep c2 now)))))

  tick-tracker :
      (c : Core) (l : link.Carrier) (now : ℕ) (clock : Clock)
      → let (j, l2) = before_drive c l now clock in
        (tick message link c l now clock).0.tracker ≡ (drive message link j l2 now).0.tracker
  unfolding tick publish flush_fail_log flush_change_log
  tick-tracker c l now clock =
      let (j, l2) = before_drive c l now clock in
      let (c3, l3) = drive message link j l2 now in recover-tracker c3 l3 now

-- Where the last request for a group, whatever is asked of others before and after it, is a
-- percentage, and the group is online with fans and bound to the dongle once the round has polled,
-- its target after the round is made of that percentage, taken into 30 to 100, or of 100 while the
-- failsafe is in force.
pub round-Aims :
    (message : ℕ → Bytes) (link : Link) (s : Loop message link) (now : ℕ) (clock : Clock)
    (rs later : List Request) (mac : Bytes) (percent : ℕ)
    → s.shared.requests ≡ rs ++ (want_percent mac percent ∷ later)
    → All (λ r. bytes_eq (about r) mac ≡ false) later
    → let j =
        (before_drive message link (serve_all s.core s.shared.requests) s.carrier now clock).0 in
      contains (macs (Tracker.fans j.tracker)) mac ≡ true
      → Holds
          (Aims (if is_some j.alarm then 100 else max 30 (min percent 100)))
          (round message link s now clock).core.tracker
          mac
unfolding round take_events clamp_percent
round-Aims message link s now clock rs later mac percent asked others online =
    let served = serve_all s.core s.shared.requests in
    let (j, l2) = before_drive message link served s.carrier now clock in
    let wanted : get j.wanted mac ≡ some (clamp_percent percent) =
      rw ((before_drive-Kept message link served s.carrier now clock).wanted, asked)
        (wanted-serve_all s.core rs later mac percent others) in
    let chosen : (if is_some j.alarm then some 100 else get j.wanted mac)
        ≡ some (if is_some j.alarm then 100 else max 30 (min percent 100)) =
      rw wanted (elim (Bool-cases (is_some j.alarm)) [ inl e ↦ rw e refl | inr e ↦ rw e refl ]) in
    subst (λ t. Holds (Aims (if is_some j.alarm then 100 else max 30 (min percent 100))) t mac)
      (sym (tick-tracker message link served s.carrier now clock))
      (drive-Aims message link j l2 now mac _ online chosen)
