-- ===== src/Probe/Confirm.antt =====
-- src/bin/probe.rs: what a success of `apply` says of the group.
use fan_control_lian_li_wire.Base.{
  ℕ, zero, suc, ◌+◌, ◌≡◌, refl, sym, ap, subst, ◌∙◌, inl, inr, true, Option, none, some, ◌++◌, leb,
  Bool-cases, Option-cases, Bytes, bytes, duration_since, Result, ok, err, and_then,
}
use fan_control_lian_li_wire.Discovery.{Reply}
use fan_control_lian_li_wire.Groups.{Group, acknowledged, due}
use fan_control_lian_li_wire.Tracker.{Tracker, group, observe, set_target, sent}
use fan_control_lian_li_wire.Tracker.Holding.{Holds, sent-Holds, observe-target}
use fan_control_lian_li_wire.Engine.{within_interval}
use fan_control_lian_li_wire.Dongle.{Port, Dongle, poll, send}
use fan_control_lian_li_wire.Probe.Session.{
  poll_gap, ack_poll_gap, ack_limit, ack_rounds, Time, Stop, said, Session, at_world, say, now,
  sleep, beaten, heartbeat, heard, went, send_target, send_if_due, exchange, apply_from, applied,
  apply,
}
use fan_control_lian_li_wire.Tracker.Targets.{set_target_lem}
use fan_control_lian_li_wire.Dongle
use fan_control_lian_li_wire.Groups
use fan_control_lian_li_wire.Heartbeat
use fan_control_lian_li_wire.Speed
use fan_control_lian_li_wire.Tracker

-- A group is known at this address, and this is its target.
abbrev pub Targets : Bytes → Bytes → Tracker → Type 0
Targets mac target t = Holds (λ g. g.target ≡ some target) t mac

module _ {port : Port} {time : Time} where
  -- The group is known at the end, its target is the one, and at the time `seen` it has acknowledged it.
  pub record Confirmed (mac target : Bytes) (s : Session port time) : Type 0 where
    pub held : Group
    pub seen : ℕ
    pub found : group s.tracker mac ≡ some held
    pub aims : held.target ≡ some target
    pub acknowledged : Groups.acknowledged held seen ≡ true

  abbrev pub Confirms {ℓ} :
      {A : Type ℓ} → Bytes → Bytes → Result Stop A × Session port time → Type 0
  Confirms mac target (ok a, s) = Confirmed mac target s
  Confirms mac target (err e, s) = Unit {0}

  abbrev pub Aimed {ℓ} : {A : Type ℓ} → Bytes → Bytes → Result Stop A × Session port time → Type 0
  Aimed mac target (r, s) = Targets mac target s.tracker

  pub and_then-Aimed {ℓ} :
      {A B : Type ℓ} (mac target : Bytes) (a : Result Stop A × Session port time)
      (f : A → Session port time → Result Stop B × Session port time)
      → Aimed mac target a
      → ((x : A) (s : Session port time) → Targets mac target s.tracker → Aimed mac target (f x s))
      → Aimed mac target (and_then a f)
  and_then-Aimed mac target (ok x, s) f h k = k x s h
  and_then-Aimed mac target (err e, s) f h k = h

  and_then-Confirms {ℓ} :
      {A B : Type ℓ} (mac target : Bytes) (a : Result Stop A × Session port time)
      (f : A → Session port time → Result Stop B × Session port time)
      → Aimed mac target a
      → ((x : A) (s : Session port time)
          → Targets mac target s.tracker
          → Confirms mac target (f x s))
      → Confirms mac target (and_then a f)
  and_then-Confirms mac target (ok x, s) f h k = k x s h
  and_then-Confirms mac target (err e, s) f h k = tt

module _ (message : ℕ → Bytes) (port : Port) (time : Time) where
  beaten-tracker :
      (s : Session port time) (at : ℕ) (sent : Result Dongle.Error (Unit {0}) × Dongle port)
      → (beaten message port time s at sent).1.tracker ≡ s.tracker
  beaten-tracker s at (ok done, d) = refl
  beaten-tracker s at (err e, d) = refl

  pub heartbeat-tracker :
      (s : Session port time) → (heartbeat message port time s).1.tracker ≡ s.tracker
  unfolding heartbeat
  heartbeat-tracker s =
      elim (Bool-cases (within_interval (now s).0 Heartbeat.interval s.last_heartbeat)) [
        | inl e ↦ rw (e, heartbeat) refl
        | inr e ↦
            rw (e, heartbeat)
              (beaten-tracker (at_world (now s).1 (time.local_time (now s).1.world).1) (now s).0 _)
      ]

  pub heard-Aimed :
      (s : Session port time) (mac target : Bytes) (got : Result Dongle.Error Reply × Dongle port)
      → Targets mac target s.tracker
      → Aimed mac target (heard message port time s got)
  heard-Aimed s mac target (ok answer, d) h =
      observe-target (some target) s.tracker answer (now s).0 mac h
  heard-Aimed s mac target (err e, d) h = h

  pub went-Aimed :
      (s : Session port time) (mac to target sent_target : Bytes) (at : ℕ)
      (sent : Result Dongle.Error (Unit {0}) × Dongle port)
      → Targets mac target s.tracker
      → Aimed mac target (went message port time s to sent_target at sent)
  went-Aimed s mac to target sent_target at (ok done, d) h =
      sent-Holds (λ g. g.target ≡ some target) s.tracker to mac at (λ g e. e) h
  went-Aimed s mac to target sent_target at (err e, d) h = h

  send_if_due-Aimed :
      (s : Session port time) (mac target : Bytes)
      → Targets mac target s.tracker
      → Aimed mac target (send_if_due message port time s mac)
  unfolding send_if_due send_target
  send_if_due-Aimed s mac target h = elim (Bool-cases (Groups.due h.held (now s).0)) [
    | inr d ↦ rw (h.found, send_if_due, d) h
    | inl d ↦
        rw (h.found, send_if_due, d, h.so, send_target)
          (went-Aimed (now s).1 mac mac target target (now s).0 _ h)
  ]

  exchange-Aimed :
      (s : Session port time) (mac target : Bytes) (gap : ℕ)
      → Targets mac target s.tracker
      → Aimed mac target (exchange message port time s mac gap)
  unfolding exchange fan_control_lian_li_wire.Probe.Session.poll
  exchange-Aimed s mac target gap h =
      and_then-Aimed mac target (heartbeat message port time s) _
        (subst (Targets mac target) (sym (heartbeat-tracker s)) h)
        λ beat s1 h1.
          and_then-Aimed mac target (send_if_due message port time s1 mac) _
            (send_if_due-Aimed s1 mac target h1)
            λ sent s2 h2. heard-Aimed (sleep s2 gap) mac target (Dongle.poll port s2.dongle) h2

  apply_from-Confirms :
      (rounds : ℕ) (s : Session port time) (mac what target : Bytes) (started polls : ℕ)
      → Targets mac target s.tracker
      → Confirms mac target (apply_from message port time rounds s mac what started polls)
  unfolding apply_from
  apply_from-Confirms zero s mac what target started polls h = tt
  apply_from-Confirms (suc rounds) s mac what target started polls h =
      and_then-Confirms mac target (exchange message port time s mac ack_poll_gap) _
        (exchange-Aimed s mac target ack_poll_gap h)
        λ done s1 h1. elim (Bool-cases (Groups.acknowledged h1.held (now s1).0)) [
          | inl a ↦
              rw (h1.found, a)
                (record {
                  held = h1.held;
                  seen = (now s1).0;
                  found = h1.found;
                  aims = h1.so;
                  acknowledged = a;
                })
          | inr a ↦ elim (Bool-cases (leb ack_limit (duration_since (now (now s1).1).0 started))) [
            | inl l ↦ rw (h1.found, a, l) tt
            | inr l ↦
                rw (h1.found, a, l)
                  (apply_from-Confirms rounds (now (now s1).1).1 mac what target started (polls + 1)
                    h1)
          ]
        ]

  applied-Confirms :
      (mac what target : Bytes) (s : Session port time) (prepared : Option Bytes)
      → prepared ≡ some target
      → Targets mac target s.tracker
      → Confirms mac target (applied message port time mac what s prepared)
  applied-Confirms mac what target s none e h = tt
  applied-Confirms mac what target s (some prepared) e h =
      apply_from-Confirms ack_rounds _ mac what target (now s).0 0 h

  apply-Confirms :
      (s : Session port time) (mac wanted what : Bytes) (g : Group)
      → group s.tracker mac ≡ some g
      → Confirms mac (Speed.prepare g.device wanted) (apply message port time s mac wanted what)
  unfolding apply
  apply-Confirms s mac wanted what g e =
      let set = (set_target_lem s.tracker mac wanted).1 g e in
      let (g', found, aimed) = set.1 in
      applied-Confirms mac what (Speed.prepare g.device wanted)
        (record s { tracker = (Tracker.set_target s.tracker mac wanted).0 })
        (Tracker.set_target s.tracker mac wanted).1 set.0
        (record { held = g'; found = found; so = aimed.target })

  -- The group that is not known is refused at once.
  apply_unknown :
      (s : Session port time) (mac wanted what : Bytes)
      → group s.tracker mac ≡ none
      → (apply message port time s mac wanted what).0
        ≡ err (
            said
              (bytes "group " ++ fan_control_lian_li_wire.Probe.Text.mac mac ++ bytes " unknown"))
  unfolding apply
  apply_unknown s mac wanted what e = rw ((set_target_lem s.tracker mac wanted).0 e, apply) refl

  -- Where `apply` succeeds, the group was known, it is known at the end with the duties that were
  -- prepared for it as its target, and its last report had acknowledged them in time at some moment.
  pub apply-Confirmed :
      (s s' : Session port time) (mac wanted what : Bytes)
      → apply message port time s mac wanted what ≡ (ok tt, s')
      → (g : Group) × (group s.tracker mac ≡ some g)
        × Confirmed mac (Speed.prepare g.device wanted) s'
  apply-Confirmed s s' mac wanted what h = elim (Option-cases (group s.tracker mac)) [
    | inl e ↦ absurd (cc (sym (apply_unknown s mac wanted what e) ∙ ap (λ a. a.0) h))
    | inr (g, e) ↦ (
      g,
      e,
      subst (λ a. Confirms mac (Speed.prepare g.device wanted) a) h
          (apply-Confirms s mac wanted what g e),
    )
  ]
