-- ===== src/Engine/Counted.antt =====
-- src/engine.rs, `tick`, `shutdown` and the rounds: the count of failed polls, beside what the
-- dongle has answered.
use fan_control_lian_li_wire.Base.{
  ℕ, ◌+◌, ◌%◌, ◌^◌, ◌≡◌, refl, sym, ap, ◌∙◌, inl, inr, true, ◌||◌, List, [], ◌∷◌, ltb, leb,
  Bool-cases, Bytes, get, Result-cases,
}
use fan_control_lian_li_wire.Heartbeat.{Clock}
use fan_control_lian_li_wire.Tracker.{Tracker, macs, group, sweep, fans, slot, set_target, sent}
use fan_control_lian_li_wire.Engine.{
  poll_failures, reconnect_max_wait, Link, Core, push_event, want,
}
use fan_control_lian_li_wire.Engine.Log.{flush_change_log, flush_fail_log}
use fan_control_lian_li_wire.Engine.Recover.{
  judge, waits, renewed, reconnected, still_lost, recover,
}
use fan_control_lian_li_wire.Engine.Drive.{drive}
use fan_control_lian_li_wire.Engine.Steady.{Settings, fail-Logged, flush-Logged}
use fan_control_lian_li_wire.Engine.Outage.{failures-judge, failures-heartbeat}
use fan_control_lian_li_wire.Engine.Publish.{publish}
use fan_control_lian_li_wire.Engine.Sound.{shutdown_lem}
use fan_control_lian_li_wire.Engine.Tick.{
  tick, shutdown, Request, want_percent, release_group, serve, serve_all,
}
use fan_control_lian_li_wire.Engine.Host.{Loop, round, finish}
use fan_control_lian_li_wire.Engine.Counting.{
  Answers, in_a_row, Counts, Counts-same, given-heartbeat, Counts-poll, given-drive_groups,
  given-last_sends,
}
use fan_control_lian_li_wire.Engine.{release, is_some, take_events}
use fan_control_lian_li_wire.Tracker.{clear_target}
use fan_control_lian_li_wire.Engine.Failsafe.{settings-drive_groups}
use fan_control_lian_li_wire.Engine.Poll
use fan_control_lian_li_wire.Engine.Sweep
use fan_control_lian_li_wire.Tracker

serve-failures : (c : Core) (r : Request) → (serve c r).failures_in_a_row ≡ c.failures_in_a_row
unfolding serve want release push_event
serve-failures c (want_percent mac percent) = refl
serve-failures c (release_group mac) =
    elim (Bool-cases (is_some (get c.wanted mac) || (clear_target c.tracker mac).1)) [
      | inl e ↦ rw (e, release) refl
      | inr e ↦ rw (e, release) refl
    ]

serve_all-failures :
    (c : Core) (rs : List Request) → (serve_all c rs).failures_in_a_row ≡ c.failures_in_a_row
unfolding serve_all
serve_all-failures c [] = refl
serve_all-failures c (r ∷ rs) = serve_all-failures (serve c r) rs ∙ serve-failures c r

module _ (message : ℕ → Bytes) (link : Link) (answers : Answers link) where
  Counts-recover :
      (c : Core) (l : link.Carrier) (now : ℕ)
      → Counts message link answers c l
      → let (c', l') = recover message link c l now in Counts message link answers c' l'
  unfolding recover reconnected renewed still_lost push_event in_a_row
  Counts-recover c l now h =
      elim (Bool-cases (ltb c.failures_in_a_row poll_failures || waits now c.reconnect_at)) [
        | inl e ↦ rw (e, recover) h
        | inr e ↦
            let every = leb reconnect_max_wait c.reconnect_wait in
            let l' = (link.reconnect l every).1 in
            elim (Result-cases (link.reconnect l every).0) [
              | inl (a, f) ↦
                  let heard : answers.given l' ≡ true ∷ answers.given l =
                    answers.reconnects l every ∙ rw f refl in
                  rw (e, recover, f)
                    (failures-judge (renewed message link c l')
                      ∙ ap (λ xs. in_a_row xs % 2 ^ 32) (sym heard))
              | inr (x, f) ↦
                  let heard : answers.given l' ≡ answers.given l =
                    answers.reconnects l every ∙ rw f refl in
                  rw (e, recover, f)
                    (ap (λ (s : Settings). s.failures_in_a_row) (fail-Logged c _ now).settings_kept
                      ∙ h
                      ∙ ap (λ xs. in_a_row xs % 2 ^ 32) (sym heard))
            ]
      ]

  Counts-tick :
      (c : Core) (l : link.Carrier) (now : ℕ) (clock : Clock)
      → Counts message link answers c l
      → let (c', l') = tick message link c l now clock in Counts message link answers c' l'
  unfolding tick drive publish Sweep.sweep
  Counts-tick c l now clock h =
      let counted = record c {
        snapshot = record c.snapshot { ticks = (c.snapshot.ticks + 1) % 2 ^ 64 };
      } in
      let (c1, l1) = Poll.heartbeat message link counted l now clock in
      let (c2, l2) = Poll.poll message link c1 l1 now in
      let j = judge (Sweep.sweep c2 now) in
      let ms = macs (Tracker.fans j.tracker) in
      let (c3, l3) = drive message link j l2 now in
      let (c4, l4) = recover message link c3 l3 now in
      let h1 : Counts message link answers c1 l1 =
        Counts-same message link answers c c1 l l1
          (failures-heartbeat message link counted l now clock)
          (given-heartbeat message link answers counted l now clock) h in
      let h2 : Counts message link answers c2 l2 = Counts-poll message link answers c1 l1 now h1 in
      let h3 : Counts message link answers c3 l3 =
        Counts-same message link answers c2 c3 l2 l3
          (ap (λ (s : Settings). s.failures_in_a_row)
              (settings-drive_groups message link j l2 ms now)
            ∙ failures-judge (Sweep.sweep c2 now))
          (given-drive_groups message link answers j l2 ms now) h2 in
      let h4 : Counts message link answers c4 l4 = Counts-recover c3 l3 now h3 in
      let ended = publish (flush_fail_log (flush_change_log c4 now) now) now in
      Counts-same message link answers c4 ended l4 l4
        (ap (λ (s : Settings). s.failures_in_a_row) (flush-Logged c4 now).settings_kept) refl h4

  pub Counts-round :
      (s : Loop message link) (now : ℕ) (clock : Clock)
      → Counts message link answers s.core s.carrier
      → let s' = round message link s now clock in Counts message link answers s'.core s'.carrier
  unfolding round take_events
  Counts-round s now clock h =
      let served = serve_all s.core s.shared.requests in
      Counts-tick served s.carrier now clock (serve_all-failures s.core s.shared.requests ∙ h)

  pub Counts-finish :
      (s : Loop message link) (now : ℕ)
      → Counts message link answers s.core s.carrier
      → let s' = finish message link s now in Counts message link answers s'.core s'.carrier
  unfolding finish take_events shutdown
  Counts-finish s now h =
      let ended = shutdown message link s.core s.carrier now in
      Counts-same message link answers s.core ended.0 s.carrier ended.1
        (ap (λ (x : Settings). x.failures_in_a_row)
          (shutdown_lem message link s.core s.carrier now).0)
        (given-last_sends message link answers s.core s.carrier (macs (Tracker.fans s.core.tracker))
          now)
        h
