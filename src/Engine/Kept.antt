-- ===== src/Engine/Kept.antt =====
-- src/engine.rs: what every step of a tick keeps of what is wanted, and of the tracker.
use fan_control_lian_li_wire.Base.{
  ℕ, ◌+◌, ◌%◌, ◌^◌, ◌≡◌, refl, sym, ap, subst, ◌∙◌, inl, inr, not, ◌||◌, Option, none, some, List,
  [], ◌∷◌, ltb, leb, if◌then◌else◌, Bool-cases, Option-cases, Bytes, Result-cases,
}
use fan_control_lian_li_wire.Tracker.Order.{IsTracker}
use fan_control_lian_li_wire.Tracker.Invariant.{
  Call, observes, sweeps, targets, clears, sends, step, step-IsTracker,
}
use fan_control_lian_li_wire.Heartbeat.{interval, default_readings, Clock, block, payload}
use fan_control_lian_li_wire.Frame.{broadcast}
use fan_control_lian_li_wire.Discovery.{Reply}
use fan_control_lian_li_wire.Tracker.{
  Tracker, macs, group, observe, rebuild, keeps, sweep, set_target, clear_target, sent,
}
use fan_control_lian_li_wire.Engine.{
  poll_failures, reconnect_first_wait, reconnect_max_wait, skip_log_every, Link, Alarm, dongle,
  Core, push_event, within_interval,
}
use fan_control_lian_li_wire.Engine.Recover.{
  same_alarm, judge, waits, renewed, reconnected, still_lost, recover,
}
use fan_control_lian_li_wire.Engine.Drive.{
  percent_for, wanted_duties, send_if_due, note_change, drive_group, drive_groups,
}
use fan_control_lian_li_wire.Engine.Steady.{Settings, Logged, fail-Logged, note_change-Logged}
use fan_control_lian_li_wire.Engine.Targets.{send_if_due_lem}
use fan_control_lian_li_wire.Engine.Poll
use fan_control_lian_li_wire.Engine.Sweep
use fan_control_lian_li_wire.Heartbeat
use fan_control_lian_li_wire.Speed
use fan_control_lian_li_wire.Tracker

-- The same is wanted, and the tracker is still one, of the same dongle.
pub record Kept (c c' : Core) : Type 0 where
  pub wanted : c'.wanted ≡ c.wanted
  pub tracker : IsTracker c.tracker → IsTracker c'.tracker
  pub master : c'.tracker.master_mac ≡ c.tracker.master_mac

pub Kept-then : {a b c : Core} → Kept a b → Kept b c → Kept a c
Kept-then h k = record {
  wanted = k.wanted ∙ h.wanted;
  tracker = λ i. k.tracker (h.tracker i);
  master = k.master ∙ h.master;
}

pub step-master : (t : Tracker) (k : Call) → (Tracker.Invariant.step t k).master_mac ≡ t.master_mac
unfolding Tracker.Invariant.step observe Tracker.sweep rebuild set_target clear_target sent
step-master t (observes reply now) = refl
step-master t (sweeps now) = refl
step-master t (targets mac wanted) = elim (Option-cases (group t mac)) [
  | inl e ↦ rw (e, Tracker.Invariant.step, set_target) refl
  | inr (g, e) ↦ rw (e, Tracker.Invariant.step, set_target) refl
]
step-master t (clears mac) = elim (Option-cases (group t mac)) [
  | inl e ↦ rw (e, Tracker.Invariant.step, clear_target) refl
  | inr (g, e) ↦ rw (e, Tracker.Invariant.step, clear_target) refl
]
step-master t (sends mac now) = refl

pub same-Kept : (c c' : Core) → c'.wanted ≡ c.wanted → c'.tracker ≡ c.tracker → Kept c c'
same-Kept c c' w t = record {
  wanted = w;
  tracker = λ i. subst IsTracker (sym t) i;
  master = ap (λ (x : Tracker). x.master_mac) t;
}

pub Logged-Kept : (c c' : Core) → Logged c c' → Kept c c'
Logged-Kept c c' l = same-Kept c c' (ap (λ (x : Settings). x.wanted) l.settings_kept) l.tracker_kept

pub call-Kept :
    (c c' : Core) (k : Call)
    → c'.wanted ≡ c.wanted
    → c'.tracker ≡ Tracker.Invariant.step c.tracker k
    → Kept c c'
call-Kept c c' k w t = record {
  wanted = w;
  tracker = λ i. subst IsTracker (sym t) (step-IsTracker c.tracker k i);
  master = ap (λ (x : Tracker). x.master_mac) t ∙ step-master c.tracker k;
}

pub judge-Kept : (c : Core) → Kept c (judge c)
unfolding judge push_event
judge-Kept c =
    let alarm : Option Alarm =
      if leb poll_failures c.failures_in_a_row then some dongle else none in
    elim (Bool-cases (same_alarm alarm c.alarm)) [
      | inl e ↦ rw (e, judge) (same-Kept c c refl refl)
      | inr e ↦ rw (e, judge) (same-Kept c _ refl refl)
    ]

pub sweep-Kept : (c : Core) (now : ℕ) → Kept c (Sweep.sweep c now)
unfolding Sweep.sweep Tracker.Invariant.step
sweep-Kept c now = call-Kept c _ (sweeps now) refl refl

note_skipped-Kept : (c : Core) (reply : Reply) (now : ℕ) → Kept c (Poll.note_skipped c reply now)
unfolding Poll.note_skipped push_event
note_skipped-Kept c reply now = elim (Bool-cases (ltb 0 reply.skipped)) [
  | inr e ↦ rw (e, Poll.note_skipped) (same-Kept c c refl refl)
  | inl e ↦ elim (Bool-cases (within_interval now skip_log_every c.last_skip_log)) [
    | inl f ↦ rw (e, Poll.note_skipped, f) (same-Kept c _ refl refl)
    | inr f ↦ rw (e, Poll.note_skipped, f) (same-Kept c _ refl refl)
  ]
]

take_reply-Kept : (c : Core) (reply : Reply) (now : ℕ) → Kept c (Poll.take_reply c reply now)
unfolding Poll.take_reply Tracker.Invariant.step
take_reply-Kept c reply now = call-Kept c _ (observes reply now) refl refl

poll_succeeded-Kept :
    (c : Core) (reply : Reply) (now : ℕ) → Kept c (Poll.poll_succeeded c reply now)
unfolding Poll.poll_succeeded
poll_succeeded-Kept c reply now =
    let c1 = record c {
      snapshot = record c.snapshot { polls = (c.snapshot.polls + 1) % 2 ^ 64 };
      failures_in_a_row = 0;
      reconnect_at = none;
      reconnect_wait = reconnect_first_wait;
    } in
    Kept-then (same-Kept c c1 refl refl) (
      Kept-then (note_skipped-Kept c1 reply now)
        (take_reply-Kept (Poll.note_skipped c1 reply now) reply now))

module _ (message : ℕ → Bytes) (link : Link) where
  pub heartbeat-Kept :
      (c : Core) (l : link.Carrier) (now : ℕ) (clock : Clock)
      → Kept c (Poll.heartbeat message link c l now clock).0
  unfolding Poll.heartbeat
  heartbeat-Kept c l now clock =
      elim (Bool-cases (within_interval now Heartbeat.interval c.last_heartbeat)) [
        | inl e ↦ rw (e, Poll.heartbeat) (same-Kept c c refl refl)
        | inr e ↦
            let payload =
              Heartbeat.payload (link.master_mac l) (block default_readings clock)
                (not c.heartbeat_sent) in
            elim (Result-cases (link.send l c.channel broadcast payload).0) [
              | inl (a, f) ↦ rw (e, Poll.heartbeat, f) (same-Kept c _ refl refl)
              | inr (x, f) ↦ rw (e, Poll.heartbeat, f) (Logged-Kept c _ (fail-Logged c _ now))
            ]
      ]

  pub poll-Kept :
      (c : Core) (l : link.Carrier) (now : ℕ) → Kept c (Poll.poll message link c l now).0
  unfolding Poll.poll Poll.poll_failed
  poll-Kept c l now = elim (Result-cases (link.poll l).0) [
    | inl (reply, f) ↦ rw (Poll.poll, f) (poll_succeeded-Kept c reply now)
    | inr (x, f) ↦
        rw (Poll.poll, f)
          (Kept-then (same-Kept c (Poll.count_failure message c) refl refl) (
            Logged-Kept (Poll.count_failure message c) _
              (fail-Logged (Poll.count_failure message c) _ now)))
  ]

  send_if_due-Kept :
      (c : Core) (l : link.Carrier) (mac : Bytes) (now : ℕ)
      → Kept c (send_if_due message link c l mac now).0
  unfolding Tracker.Invariant.step
  send_if_due-Kept c l mac now =
      let s = send_if_due_lem message link c l mac now in
      let w = ap (λ (x : Settings). x.wanted) s.0 in
      elim s.1 [
        | inl same ↦ same-Kept c _ w same
        | inr (m, went) ↦ call-Kept c _ (sends m now) w went
      ]

  drive_group-Kept :
      (c : Core) (l : link.Carrier) (mac : Bytes) (now : ℕ)
      → Kept c (drive_group message link c l mac now).0
  unfolding drive_group Tracker.Invariant.step
  drive_group-Kept c l mac now = elim (Option-cases (percent_for c mac)) [
    | inl e ↦ rw (e, drive_group) (same-Kept c c refl refl)
    | inr (percent, e) ↦ elim (Option-cases (group c.tracker mac)) [
      | inl f ↦ rw (e, f, drive_group) (same-Kept c c refl refl)
      | inr (g, f) ↦
          let w = wanted_duties percent g.device.fan_count in
          let duties = Speed.prepare g.device w in
          let set = (Tracker.Targets.set_target_lem c.tracker mac w).1 g f in
          let c1 = record c { tracker = (Tracker.set_target c.tracker mac w).0 } in
          let c2 = note_change message link c1 g percent duties now in
          rw (e, f, drive_group, set.0)
            (Kept-then (call-Kept c c1 (targets mac w) refl refl) (
              Kept-then
                (Logged-Kept c1 c2 (note_change-Logged message link c1 g percent duties now))
                (send_if_due-Kept c2 l g.device.mac now)))
    ]
  ]

  pub drive_groups-Kept :
      (c : Core) (l : link.Carrier) (macs : List Bytes) (now : ℕ)
      → Kept c (drive_groups message link c l macs now).0
  unfolding drive_groups
  drive_groups-Kept c l [] now = same-Kept c c refl refl
  drive_groups-Kept c l (mac ∷ rest) now =
      let next = drive_group message link c l mac now in
      Kept-then (drive_group-Kept c l mac now) (drive_groups-Kept next.0 next.1 rest now)

  pub recover-Kept :
      (c : Core) (l : link.Carrier) (now : ℕ) → Kept c (recover message link c l now).0
  unfolding recover reconnected renewed still_lost push_event
  recover-Kept c l now =
      elim (Bool-cases (ltb c.failures_in_a_row poll_failures || waits now c.reconnect_at)) [
        | inl e ↦ rw (e, recover) (same-Kept c c refl refl)
        | inr e ↦
            let every_channel = leb reconnect_max_wait c.reconnect_wait in
            let l' = (link.reconnect l every_channel).1 in
            elim (Result-cases (link.reconnect l every_channel).0) [
              | inl (a, f) ↦
                  rw (e, recover, f)
                    (Kept-then (same-Kept c (renewed message link c l') refl refl)
                      (judge-Kept (renewed message link c l')))
              | inr (x, f) ↦
                  rw (e, recover, f)
                    (let k = Logged-Kept c _ (fail-Logged c _ now) in
                      record { wanted = k.wanted; tracker = k.tracker; master = k.master })
            ]
      ]
