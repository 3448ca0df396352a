-- ===== src/Engine/Counting.antt =====
-- src/engine.rs: the count of failed polls, beside what the dongle has answered.
use fan_control_lian_li_wire.Base.{
  ℕ, suc, ◌+◌, ◌%◌, ◌^◌, ◌≡◌, refl, sym, ap, ◌∙◌, inl, inr, Bool, true, false, not, none, List, [],
  ◌∷◌, arith, ltb, if◌then◌else◌, Bool-cases, Option-cases, Bytes, Result, ok, err, Result-cases,
}
use fan_control_lian_li_wire.Heartbeat.{interval, default_readings, Clock, block, payload}
use fan_control_lian_li_wire.Frame.{broadcast}
use fan_control_lian_li_wire.Discovery.{Reply}
use fan_control_lian_li_wire.Groups.{Group, new, acknowledged, due}
use fan_control_lian_li_wire.Tracker.{Tracker, macs, group, sweep, fans, slot, set_target, sent}
use fan_control_lian_li_wire.Engine.{
  reconnect_first_wait, skip_log_every, Link, Core, push_event, within_interval,
}
use fan_control_lian_li_wire.Engine.Drive.{
  percent_for, wanted_duties, send_target, send_if_due, note_change, drive_group, drive_groups,
}
use fan_control_lian_li_wire.Engine.Steady.{Settings, fail-Logged}
use fan_control_lian_li_wire.Engine.Tick.{last_send, last_sends}
use fan_control_lian_li_wire.Engine.Poll
use fan_control_lian_li_wire.Dongle
use fan_control_lian_li_wire.Groups
use fan_control_lian_li_wire.Heartbeat
use fan_control_lian_li_wire.Speed
use fan_control_lian_li_wire.Tracker

abbrev pub is_ok {ℓ} : {A : Type ℓ} → Result Dongle.Error A → Bool
is_ok (ok a) = true
is_ok (err e) = false

-- A link with the record of how its polls went, and of the reconnects that succeeded, the latest
-- first.
pub record Answers (link : Link) : Type 0 where
  pub given : link.Carrier → List Bool
  pub polls : (l : link.Carrier) → given (link.poll l).1 ≡ is_ok (link.poll l).0 ∷ given l
  pub reconnects :
      (l : link.Carrier) (every : Bool)
      → given (link.reconnect l every).1
        ≡ (if is_ok (link.reconnect l every).0 then true ∷ given l else given l)
  pub sends :
      (l : link.Carrier) (channel to : ℕ) (payload : Bytes)
      → given (link.send l channel to payload).1 ≡ given l

-- How many polls failed since the last success.
unfoldable pub in_a_row : List Bool → ℕ
in_a_row [] = 0
in_a_row (true ∷ rest) = 0
in_a_row (false ∷ rest) = suc (in_a_row rest)

one_more : (n : ℕ) → (n % 2 ^ 32 + 1) % 2 ^ 32 ≡ suc n % 2 ^ 32
one_more n = omega arith

note_skipped-failures :
    (c : Core) (answer : Reply) (now : ℕ)
    → (Poll.note_skipped c answer now).failures_in_a_row ≡ c.failures_in_a_row
unfolding Poll.note_skipped push_event
note_skipped-failures c answer now = elim (Bool-cases (ltb 0 answer.skipped)) [
  | inr e ↦ rw (e, Poll.note_skipped) refl
  | inl e ↦ elim (Bool-cases (within_interval now skip_log_every c.last_skip_log)) [
    | inl f ↦ rw (e, Poll.note_skipped, f) refl
    | inr f ↦ rw (e, Poll.note_skipped, f) refl
  ]
]

module _ (message : ℕ → Bytes) (link : Link) (answers : Answers link) where
  -- The core has counted the failures.
  abbrev pub Counts : Core → link.Carrier → Type 0
  Counts c l = c.failures_in_a_row ≡ in_a_row (answers.given l) % 2 ^ 32

  pub Counts-same :
      (c c' : Core) (l l' : link.Carrier)
      → c'.failures_in_a_row ≡ c.failures_in_a_row
      → answers.given l' ≡ answers.given l
      → Counts c l
      → Counts c' l'
  Counts-same c c' l l' f g h = f ∙ h ∙ ap (λ xs. in_a_row xs % 2 ^ 32) (sym g)

  pub given-heartbeat :
      (c : Core) (l : link.Carrier) (now : ℕ) (clock : Clock)
      → answers.given (Poll.heartbeat message link c l now clock).1 ≡ answers.given l
  unfolding Poll.heartbeat
  given-heartbeat c l now clock =
      elim (Bool-cases (within_interval now Heartbeat.interval c.last_heartbeat)) [
        | inl e ↦ rw (e, Poll.heartbeat) refl
        | inr e ↦
            let payload =
              Heartbeat.payload (link.master_mac l) (block default_readings clock)
                (not c.heartbeat_sent) in
            rw (e, Poll.heartbeat) (answers.sends l c.channel broadcast payload)
      ]

  pub Counts-poll :
      (c : Core) (l : link.Carrier) (now : ℕ)
      → Counts c l
      → let (c', l') = Poll.poll message link c l now in Counts c' l'
  unfolding Poll.poll Poll.poll_succeeded Poll.take_reply Poll.poll_failed in_a_row
  Counts-poll c l now h = elim (Result-cases (link.poll l).0) [
    | inl (answer, e) ↦
        let heard : answers.given (link.poll l).1 ≡ true ∷ answers.given l =
          answers.polls l ∙ rw e refl in
        let reset : Core = record c {
          snapshot = record c.snapshot { polls = (c.snapshot.polls + 1) % 2 ^ 64 };
          failures_in_a_row = 0;
          reconnect_at = none;
          reconnect_wait = reconnect_first_wait;
        } in
        rw (e, Poll.poll)
          (note_skipped-failures reset answer now ∙ ap (λ xs. in_a_row xs % 2 ^ 32) (sym heard))
    | inr (x, e) ↦
        let heard : answers.given (link.poll l).1 ≡ false ∷ answers.given l =
          answers.polls l ∙ rw e refl in
        let counted = Poll.count_failure message c in
        rw (e, Poll.poll)
          (ap (λ (s : Settings). s.failures_in_a_row) (fail-Logged counted _ now).settings_kept
            ∙ rw h (one_more (in_a_row (answers.given l)))
            ∙ ap (λ xs. in_a_row xs % 2 ^ 32) (sym heard))
  ]

  given-send_target :
      (c : Core) (l : link.Carrier) (g : Group) (target : Bytes) (now : ℕ)
      → answers.given (send_target message link c l g target now).1 ≡ answers.given l
  unfolding send_target
  given-send_target c l g target now =
      let payload =
        Speed.payload g.device (link.master_mac l) c.channel (Tracker.slot c.tracker g.device.mac)
          target in
      let same = answers.sends l g.device.channel g.device.receiver payload in
      elim (Result-cases (link.send l g.device.channel g.device.receiver payload).0) [
        | inl (a, e) ↦ rw (e, send_target) same
        | inr (x, e) ↦ rw (e, send_target) same
      ]

  given-send_if_due :
      (c : Core) (l : link.Carrier) (mac : Bytes) (now : ℕ)
      → answers.given (send_if_due message link c l mac now).1 ≡ answers.given l
  unfolding send_if_due
  given-send_if_due c l mac now = elim (Option-cases (group c.tracker mac)) [
    | inl e ↦ rw (e, send_if_due) refl
    | inr (g, e) ↦ elim (Bool-cases (Groups.due g now)) [
      | inr d ↦ rw (e, send_if_due, d) refl
      | inl d ↦ elim (Option-cases g.target) [
        | inl f ↦ rw (e, send_if_due, d, f) refl
        | inr (target, f) ↦ rw (e, send_if_due, d, f) (given-send_target c l g target now)
      ]
    ]
  ]

  given-drive_group :
      (c : Core) (l : link.Carrier) (mac : Bytes) (now : ℕ)
      → answers.given (drive_group message link c l mac now).1 ≡ answers.given l
  unfolding drive_group
  given-drive_group c l mac now = elim (Option-cases (percent_for c mac)) [
    | inl e ↦ rw (e, drive_group) refl
    | inr (percent, e) ↦ elim (Option-cases (group c.tracker mac)) [
      | inl f ↦ rw (e, f, drive_group) refl
      | inr (g, f) ↦
          let w = wanted_duties percent g.device.fan_count in
          let set =
            (fan_control_lian_li_wire.Tracker.Targets.set_target_lem c.tracker mac w).1 g f in
          let c1 = record c { tracker = (Tracker.set_target c.tracker mac w).0 } in
          rw (e, f, drive_group, set.0)
            (given-send_if_due
              (note_change message link c1 g percent (Speed.prepare g.device w) now) l g.device.mac
              now)
    ]
  ]

  pub given-drive_groups :
      (c : Core) (l : link.Carrier) (ms : List Bytes) (now : ℕ)
      → answers.given (drive_groups message link c l ms now).1 ≡ answers.given l
  unfolding drive_groups
  given-drive_groups c l [] now = refl
  given-drive_groups c l (mac ∷ rest) now =
      let next = drive_group message link c l mac now in
      given-drive_groups next.0 next.1 rest now ∙ given-drive_group c l mac now

  given-last_send :
      (c : Core) (l : link.Carrier) (mac : Bytes) (now : ℕ)
      → answers.given (last_send message link c l mac now).1 ≡ answers.given l
  unfolding last_send
  given-last_send c l mac now = elim (Option-cases (group c.tracker mac)) [
    | inl e ↦ rw (e, last_send) refl
    | inr (g, e) ↦ elim (Option-cases g.target) [
      | inl f ↦ rw (e, f, last_send) refl
      | inr (target, f) ↦ elim (Bool-cases (Groups.acknowledged g now)) [
        | inl a ↦ rw (e, f, a, last_send) refl
        | inr a ↦
            let payload =
              Speed.payload g.device (link.master_mac l) c.channel (Tracker.slot c.tracker mac)
                target in
            let same = answers.sends l g.device.channel g.device.receiver payload in
            elim (Result-cases (link.send l g.device.channel g.device.receiver payload).0) [
              | inl (u, r) ↦ rw (e, f, a, last_send, r) same
              | inr (x, r) ↦ rw (e, f, a, last_send, r) same
            ]
      ]
    ]
  ]

  pub given-last_sends :
      (c : Core) (l : link.Carrier) (ms : List Bytes) (now : ℕ)
      → answers.given (last_sends message link c l ms now).1 ≡ answers.given l
  unfolding last_sends
  given-last_sends c l [] now = refl
  given-last_sends c l (mac ∷ rest) now =
      let next = last_send message link c l mac now in
      given-last_sends next.0 next.1 rest now ∙ given-last_send c l mac now
