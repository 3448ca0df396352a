-- ===== src/Engine/Sound.antt =====
-- src/engine.rs, `tick`, `shutdown` and the requests: what they keep of what is wanted, of the
-- tracker and of the failsafe.
use fan_control_lian_li_wire.Base.{
  ℕ, ◌+◌, ◌%◌, ◌^◌, ◌≡◌, refl, sym, subst, ◌∙◌, inl, inr, ◌||◌, List, [], ◌∷◌, arith, Bool-cases,
  Option-cases, All, Bytes, get, Result-cases,
}
use fan_control_lian_li_wire.Tracker.Order.{IsTracker}
use fan_control_lian_li_wire.Tracker.Invariant.{clears, sends, step, step-IsTracker}
use fan_control_lian_li_wire.Heartbeat.{Clock}
use fan_control_lian_li_wire.Groups.{Group, new, acknowledged, keep}
use fan_control_lian_li_wire.Tracker.{Tracker, macs, group, sweep, fans, slot, clear_target}
use fan_control_lian_li_wire.Engine.{
  Link, Snapshot, Core, push_event, want, is_some, release, take_events,
}
use fan_control_lian_li_wire.Engine.Log.{flush_fail_log, flush_change_log}
use fan_control_lian_li_wire.Engine.Recover.{judge, recover}
use fan_control_lian_li_wire.Engine.Drive.{drive}
use fan_control_lian_li_wire.Engine.Steady.{settings, flush-Logged, publish-Logged}
use fan_control_lian_li_wire.Engine.Failsafe.{IsJudged, settled_judged, tick-IsJudged}
use fan_control_lian_li_wire.Engine.Requests.{IsAllowed, serve_all-IsAllowed}
use fan_control_lian_li_wire.Engine.Kept.{
  Kept, Kept-then, same-Kept, Logged-Kept, call-Kept, judge-Kept, sweep-Kept, heartbeat-Kept,
  poll-Kept, drive_groups-Kept, recover-Kept,
}
use fan_control_lian_li_wire.Engine.Publish.{publish}
use fan_control_lian_li_wire.Engine.Tick.{
  tick, last_send, last_sends, shutdown, Request, want_percent, release_group, serve, serve_all,
}
use fan_control_lian_li_wire.Engine.Host.{Loop, start, round, finish}
use fan_control_lian_li_wire.Engine.Poll
use fan_control_lian_li_wire.Engine.Sweep
use fan_control_lian_li_wire.Groups
use fan_control_lian_li_wire.Speed
use fan_control_lian_li_wire.Tracker
use fan_control_lian_li_wire.Engine

module _ (message : ℕ → Bytes) (link : Link) where
  pub tick-Kept :
      (c : Core) (l : link.Carrier) (now : ℕ) (clock : Clock)
      → Kept c (tick message link c l now clock).0
  unfolding tick drive
  tick-Kept c l now clock =
      let counted = record c {
        snapshot = record c.snapshot { ticks = (c.snapshot.ticks + 1) % 2 ^ 64 };
      } in
      let (c1, l1) = Poll.heartbeat message link counted l now clock in
      let (c2, l2) = Poll.poll message link c1 l1 now in
      let swept = Sweep.sweep c2 now in
      let j = judge swept in
      let driven = macs (Tracker.fans j.tracker) in
      let (c3, l3) = drive message link j l2 now in
      let c4 = (recover message link c3 l3 now).0 in
      let flushed = flush_fail_log (flush_change_log c4 now) now in
      Kept-then (same-Kept c counted refl refl) (
        Kept-then (heartbeat-Kept message link counted l now clock) (
          Kept-then (poll-Kept message link c1 l1 now) (
            Kept-then (sweep-Kept c2 now) (
              Kept-then (judge-Kept swept) (
                Kept-then (drive_groups-Kept message link j l2 driven now) (
                  Kept-then (recover-Kept message link c3 l3 now) (
                    Kept-then (Logged-Kept c4 flushed (flush-Logged c4 now))
                      (Logged-Kept flushed _ (publish-Logged flushed now)))))))))

  -- The last sends change the tracker alone.
  last_send_lem :
      (c : Core) (l : link.Carrier) (mac : Bytes) (now : ℕ)
      → let c' = (last_send message link c l mac now).0 in (settings c' ≡ settings c) × Kept c c'
  unfolding last_send Tracker.Invariant.step
  last_send_lem c l mac now = elim (Option-cases (group c.tracker mac)) [
    | inl e ↦ rw (e, last_send) (refl, same-Kept c c refl refl)
    | inr (g, e) ↦ elim (Option-cases g.target) [
      | inl f ↦ rw (e, f, last_send) (refl, same-Kept c c refl refl)
      | inr (target, f) ↦ elim (Bool-cases (Groups.acknowledged g now)) [
        | inl a ↦ rw (e, f, a, last_send) (refl, same-Kept c c refl refl)
        | inr a ↦
            let payload =
              Speed.payload g.device (link.master_mac l) c.channel (Tracker.slot c.tracker mac)
                target in
            elim (Result-cases (link.send l g.device.channel g.device.receiver payload).0) [
              | inl (u, r) ↦
                  rw (e, f, a, last_send, r) (refl, call-Kept c _ (sends mac now) refl refl)
              | inr (x, r) ↦ rw (e, f, a, last_send, r) (refl, same-Kept c c refl refl)
            ]
      ]
    ]
  ]

  last_sends_lem :
      (c : Core) (l : link.Carrier) (ms : List Bytes) (now : ℕ)
      → let c' = (last_sends message link c l ms now).0 in (settings c' ≡ settings c) × Kept c c'
  unfolding last_sends
  last_sends_lem c l [] now = (refl, same-Kept c c refl refl)
  last_sends_lem c l (mac ∷ rest) now =
      let (first, second) = last_send_lem c l mac now in
      let next = last_send message link c l mac now in
      let (after, kept) = last_sends_lem next.0 next.1 rest now in
      (after ∙ first, Kept-then second kept)

  -- The snapshot that is left names the alarm.
  pub shutdown_lem :
      (c : Core) (l : link.Carrier) (now : ℕ)
      → let c' = (shutdown message link c l now).0 in
        (settings c' ≡ settings c) × Kept c c' × (c'.snapshot.alarm ≡ c'.alarm)
  unfolding shutdown push_event publish
  shutdown_lem c l now =
      let (same, kept) = last_sends_lem c l (macs (Tracker.fans c.tracker)) now in
      (same, record { wanted = kept.wanted; tracker = kept.tracker; master = kept.master }, refl)

serve-IsTracker : (c : Core) (r : Request) → IsTracker c.tracker → IsTracker (serve c r).tracker
unfolding serve want release push_event Tracker.Invariant.step
serve-IsTracker c (want_percent mac percent) h = h
serve-IsTracker c (release_group mac) h =
    let kept = step-IsTracker c.tracker (clears mac) h in
    elim (Bool-cases (is_some (get c.wanted mac) || (clear_target c.tracker mac).1)) [
      | inl e ↦ rw (e, release) kept
      | inr e ↦ rw (e, release) kept
    ]

pub serve_all-IsTracker :
    (c : Core) (rs : List Request) → IsTracker c.tracker → IsTracker (serve_all c rs).tracker
unfolding serve_all
serve_all-IsTracker c [] h = h
serve_all-IsTracker c (r ∷ rs) h = serve_all-IsTracker (serve c r) rs (serve-IsTracker c r h)

-- All that hosts can see or ask of the core between the steps of its thread.
pub record IsSound (c : Core) (shown : Snapshot) : Type 0 where
  pub allowed : All IsAllowed c.wanted
  pub tracked : IsTracker c.tracker
  pub judged : IsJudged c
  pub told : c.events ≡ []
  pub shown_is : shown ≡ c.snapshot
  pub alarm_is : shown.alarm ≡ c.alarm

module _ (message : ℕ → Bytes) (link : Link) where
  pub start-IsSound :
      (l : link.Carrier) → let s = start message link l in IsSound s.core s.shared.snapshot
  unfolding start Engine.new Tracker.new
  start-IsSound l = record {
    allowed = tt;
    tracked = record { distinct = λ m. omega arith; once = λ m. omega arith };
    judged = refl;
    told = refl;
    shown_is = refl;
    alarm_is = refl;
  }

  pub round-IsSound :
      (s : Loop message link) (now : ℕ) (clock : Clock)
      → IsSound s.core s.shared.snapshot
      → let s' = round message link s now clock in IsSound s'.core s'.shared.snapshot
  unfolding round take_events
  round-IsSound s now clock h =
      let served = serve_all s.core s.shared.requests in
      let kept = tick-Kept message link served s.carrier now clock in
      let (judged, shown) = tick-IsJudged message link served s.carrier now clock in
      record {
        allowed =
            subst (All IsAllowed) (sym kept.wanted)
              (serve_all-IsAllowed s.core s.shared.requests h.allowed);
        tracked = kept.tracker (serve_all-IsTracker s.core s.shared.requests h.tracked);
        judged = judged;
        told = refl;
        shown_is = refl;
        alarm_is = shown;
      }

  pub finish-IsSound :
      (s : Loop message link) (now : ℕ)
      → IsSound s.core s.shared.snapshot
      → let s' = finish message link s now in IsSound s'.core s'.shared.snapshot
  unfolding finish take_events
  finish-IsSound s now h =
      let (same, kept, shown) = shutdown_lem message link s.core s.carrier now in
      record {
        allowed = subst (All IsAllowed) (sym kept.wanted) h.allowed;
        tracked = kept.tracker h.tracked;
        judged = settled_judged (settings s.core) _ (sym same) h.judged;
        told = refl;
        shown_is = refl;
        alarm_is = shown;
      }
