-- ===== src/Probe/Waits.antt =====
-- src/bin/probe.rs: the loops of `apply` and `hold` end.
use fan_control_lian_li_wire.Base.{
  ℕ, zero, suc, ◌+◌, ◌-◌, ◌*◌, ◌/◌, ◌≤◌, ◌<◌, ◌≡◌, refl, ◌≢◌, ◌⊎◌, inl, inr, Option, none, some,
  arith, leb, Bool-cases, Option-cases, length, Bytes, duration_since, Result, ok, err, and_then,
}
use fan_control_lian_li_wire.Discovery.{Reply}
use fan_control_lian_li_wire.Groups.{Group, acknowledged, due}
use fan_control_lian_li_wire.Tracker.{Tracker, group, set_target, sent}
use fan_control_lian_li_wire.Engine.{within_interval}
use fan_control_lian_li_wire.Dongle.{Port, Dongle, poll, send}
use fan_control_lian_li_wire.Probe.Session.{
  poll_gap, ack_poll_gap, ack_limit, ack_rounds, Time, Stop, said, unfinished, Session, at_world,
  say, now, sleep, beaten, heartbeat, heard, went, send_target, send_if_due, exchange, apply_from,
  applied, apply, hold_line, hold_from, hold,
}
use fan_control_lian_li_wire.Dongle
use fan_control_lian_li_wire.Groups
use fan_control_lian_li_wire.Heartbeat
use fan_control_lian_li_wire.Tracker

-- `Instant` never goes back, and a sleep lasts at least as long as it is asked to.
pub record IsClock (time : Time) : Type 0 where
  pub reads : (w : time.World) → (time.now w).0 ≤ (time.now (time.now w).1).0
  pub dates : (w : time.World) → (time.now w).0 ≤ (time.now (time.local_time w).1).0
  pub sleeps : (w : time.World) (d : ℕ) → (time.now w).0 + d ≤ (time.now (time.sleep w d)).0

module _ {port : Port} {time : Time} where
  abbrev pub reading : Session port time → ℕ
  reading s = (time.now s.world).0

  -- After a success it is `from` or later, and a failure has a message.
  abbrev pub Passes {ℓ} : {A : Type ℓ} → ℕ → Result Stop A × Session port time → Type 0
  Passes from (ok a, s) = from ≤ reading s
  Passes from (err e, s) = e ≢ unfinished

  abbrev pub Finishes {ℓ} : {A : Type ℓ} → Result Stop A × Session port time → Type 0
  Finishes (ok a, s) = Unit {0}
  Finishes (err e, s) = e ≢ unfinished

  pub and_then-Passes {ℓ} :
      {A B : Type ℓ} (m n : ℕ) (a : Result Stop A × Session port time)
      (f : A → Session port time → Result Stop B × Session port time)
      → Passes m a
      → ((x : A) (s : Session port time) → m ≤ reading s → Passes n (f x s))
      → Passes n (and_then a f)
  and_then-Passes m n (ok x, s) f h k = k x s h
  and_then-Passes m n (err e, s) f h k = h

  pub and_then-Finishes {ℓ} :
      {A B : Type ℓ} (m : ℕ) (a : Result Stop A × Session port time)
      (f : A → Session port time → Result Stop B × Session port time)
      → Passes m a
      → ((x : A) (s : Session port time) → m ≤ reading s → Finishes (f x s))
      → Finishes (and_then a f)
  and_then-Finishes m (ok x, s) f h k = k x s h
  and_then-Finishes m (err e, s) f h k = h

  pub Passes-Finishes {ℓ} :
      {A : Type ℓ} (m : ℕ) (a : Result Stop A × Session port time) → Passes m a → Finishes a
  Passes-Finishes m (ok x, s) h = tt
  Passes-Finishes m (err e, s) h = h

pub said_finishes : (m : Bytes) → said m ≢ unfinished
said_finishes m h = cc

module _ (message : ℕ → Bytes) (port : Port) (time : Time) where
  beaten-Passes :
      (s : Session port time) (at from : ℕ) (sent : Result Dongle.Error (Unit {0}) × Dongle port)
      → from ≤ reading s
      → Passes from (beaten message port time s at sent)
  beaten-Passes s at from (ok done, d) h = h
  beaten-Passes s at from (err e, d) h = said_finishes _

  pub heartbeat-Passes :
      (s : Session port time) → IsClock time → Passes (reading s) (heartbeat message port time s)
  unfolding heartbeat
  heartbeat-Passes s c =
      let s1 = (now s).1 in
      let later : reading s ≤ reading s1 = c.reads s.world in
      elim (Bool-cases (within_interval (reading s) Heartbeat.interval s.last_heartbeat)) [
        | inl e ↦ rw (e, heartbeat) later
        | inr e ↦
            rw (e, heartbeat)
              (beaten-Passes (at_world s1 (time.local_time s1.world).1) (reading s) (reading s) _
                (omega (arith, later, c.dates s1.world)))
      ]

  heard-Passes :
      (s : Session port time) (from : ℕ) (got : Result Dongle.Error Reply × Dongle port)
      → IsClock time
      → from ≤ reading s
      → Passes from (heard message port time s got)
  heard-Passes s from (ok answer, d) c h = omega (arith, c.reads s.world)
  heard-Passes s from (err e, d) c h = said_finishes _

  pub poll-Finishes :
      (s : Session port time)
      → IsClock time
      → Finishes (fan_control_lian_li_wire.Probe.Session.poll message port time s)
  unfolding fan_control_lian_li_wire.Probe.Session.poll
  poll-Finishes s c =
      Passes-Finishes (reading s) (heard message port time s (Dongle.poll port s.dongle))
        (heard-Passes s (reading s) (Dongle.poll port s.dongle) c (omega arith))

  went-Passes :
      (s : Session port time) (mac target : Bytes) (at from : ℕ)
      (sent : Result Dongle.Error (Unit {0}) × Dongle port)
      → from ≤ reading s
      → Passes from (went message port time s mac target at sent)
  went-Passes s mac target at from (ok done, d) h = h
  went-Passes s mac target at from (err e, d) h = said_finishes _

  send_if_due-Passes :
      (s : Session port time) (mac : Bytes)
      → IsClock time
      → Passes (reading s) (send_if_due message port time s mac)
  unfolding send_if_due send_target
  send_if_due-Passes s mac c =
      let later : reading s ≤ reading (now s).1 = c.reads s.world in
      elim (Option-cases (Tracker.group s.tracker mac)) [
        | inl e ↦ rw (e, send_if_due) (said_finishes _)
        | inr (g, e) ↦ elim (Bool-cases (Groups.due g (reading s))) [
          | inr d ↦ rw (e, send_if_due, d) later
          | inl d ↦ elim (Option-cases g.target) [
            | inl f ↦ rw (e, send_if_due, d, f) (said_finishes _)
            | inr (target, f) ↦
                rw (e, send_if_due, d, f, send_target)
                  (went-Passes (now s).1 mac target (reading s) (reading s) _ later)
          ]
        ]
      ]

  pub exchange-Passes :
      (s : Session port time) (mac : Bytes) (gap : ℕ)
      → IsClock time
      → Passes (reading s + gap) (exchange message port time s mac gap)
  unfolding exchange fan_control_lian_li_wire.Probe.Session.poll
  exchange-Passes s mac gap c =
      and_then-Passes (reading s) (reading s + gap) (heartbeat message port time s) _
        (heartbeat-Passes s c)
        λ beat s1 h1.
          and_then-Passes (reading s1) (reading s + gap) (send_if_due message port time s1 mac) _
            (send_if_due-Passes s1 mac c)
            λ sent s2 h2.
              heard-Passes (sleep s2 gap) (reading s + gap) (Dongle.poll port s2.dongle) c
                (omega (arith, h1, h2, c.sleeps s2.world gap))

  -- `last` is the time that the loop read at its last test, or when it began.
  apply_from-Finishes :
      (rounds : ℕ) (s : Session port time) (mac what : Bytes) (started polls last : ℕ)
      → IsClock time
      → started ≤ last
      → last ≤ reading s
      → last - started < ack_limit
      → ack_limit ≤ last - started + rounds * ack_poll_gap
      → Finishes (apply_from message port time rounds s mac what started polls)
  unfolding apply_from
  apply_from-Finishes zero s mac what started polls last c h1 h2 h3 h4 = absurd (omega arith)
  apply_from-Finishes (suc rounds) s mac what started polls last c h1 h2 h3 h4 =
      and_then-Finishes (reading s + ack_poll_gap) (exchange message port time s mac ack_poll_gap) _
        (exchange-Passes s mac ack_poll_gap c)
        λ done s1 k. elim (Option-cases (Tracker.group s1.tracker mac)) [
          | inl e ↦ rw e (said_finishes _)
          | inr (g, e) ↦ elim (Bool-cases (Groups.acknowledged g (reading s1))) [
            | inl a ↦ rw (e, a) tt
            | inr a ↦
                let s2 = (now s1).1 in
                let t1 : reading s1 ≤ reading s2 = c.reads s1.world in
                let t2 : reading s2 ≤ reading (now s2).1 = c.reads s2.world in
                elim (Bool-cases (leb ack_limit (duration_since (reading s2) started))) [
                  | inl l ↦ rw (e, a, l) (said_finishes _)
                  | inr l ↦
                      rw (e, a, l)
                        (apply_from-Finishes rounds (now s2).1 mac what started (polls + 1)
                          (reading s2) c (omega arith) t2 (ground arith) (omega arith))
                ]
          ]
        ]

  applied-Finishes :
      (mac what : Bytes) (s : Session port time) (prepared : Option Bytes)
      → IsClock time
      → Finishes (applied message port time mac what s prepared)
  applied-Finishes mac what s none c = said_finishes _
  applied-Finishes mac what s (some prepared) c =
      apply_from-Finishes ack_rounds _ mac what (reading s) 0 (reading s) c (omega arith)
        (c.reads s.world) (omega arith) (omega arith)

  hold_from-Finishes :
      (rounds : ℕ) (s : Session port time) (mac : Bytes) (length started last : ℕ)
      → IsClock time
      → started ≤ last
      → last ≤ reading s
      → length < last - started + rounds * poll_gap
      → (last ≡ started) ⊎ (last - started < length)
      → Finishes (hold_from message port time rounds s mac length started)
  unfolding hold_from
  hold_from-Finishes zero s mac length started last c h1 h2 h3 h4 =
      absurd (elim h4 [ inl e ↦ omega arith | inr l ↦ omega arith ])
  hold_from-Finishes (suc rounds) s mac length started last c h1 h2 h3 h4 =
      and_then-Finishes (reading s + poll_gap) (exchange message port time s mac poll_gap) _
        (exchange-Passes s mac poll_gap c)
        λ done s1 k. elim (Option-cases (Tracker.group s1.tracker mac)) [
          | inl e ↦ rw e (said_finishes _)
          | inr (g, e) ↦ elim (Bool-cases (leb length (duration_since (reading s1) started))) [
            | inl l ↦ rw (e, l) tt
            | inr l ↦
                rw (e, l)
                  (hold_from-Finishes rounds
                    (say (hold_line message port time started g (reading s1)) (now s1).1) mac length
                    started (reading s1) c (omega arith) (c.reads s1.world) (omega arith)
                    (inr (ground arith)))
          ]
        ]

  -- With the clock as documented, `apply` ends within its rounds: it succeeds or it has a message.
  pub apply-Finishes :
      (s : Session port time) (mac wanted what : Bytes)
      → IsClock time
      → Finishes (apply message port time s mac wanted what)
  unfolding apply
  apply-Finishes s mac wanted what c =
      applied-Finishes mac what (record s { tracker = (Tracker.set_target s.tracker mac wanted).0 })
        (Tracker.set_target s.tracker mac wanted).1 c

  -- The same of `hold`, for any length.
  pub hold-Finishes :
      (s : Session port time) (mac : Bytes) (length : ℕ)
      → IsClock time
      → Finishes (hold message port time s mac length)
  unfolding hold
  hold-Finishes s mac length c =
      hold_from-Finishes (suc (length / poll_gap)) (now s).1 mac length (reading s) (reading s) c
        (omega arith) (c.reads s.world) (omega arith) (inl refl)
