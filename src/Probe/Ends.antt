-- ===== src/Probe/Ends.antt =====
-- src/bin/probe.rs, `run`: its loops end.
use fan_control_lian_li_wire.Base.{
  ℕ, zero, suc, ◌+◌, ◌-◌, ◌*◌, ◌/◌, ◌≤◌, ◌<◌, ◌≡◌, ◌≢◌, inl, inr, Bool, false, not, ◌&&◌, arith,
  ltb, leb, Bool-cases, Bytes, duration_since, Result, ok, err, and_then,
}
use fan_control_lian_li_wire.Process.{Toolhelp, last}
use fan_control_lian_li_wire.Engine.Host.{Shared}
use fan_control_lian_li_wire.Probe.Options.{RunOptions}
use fan_control_lian_li_wire.Probe.Session.{Time, Stop, unfinished, overflow}
use fan_control_lian_li_wire.Probe.Run.{
  starting_of, starting_text, print_line, set_all_initial, typed_all,
}
use fan_control_lian_li_wire.Probe.Waits.{IsClock, said_finishes}
use fan_control_lian_li_wire.Probe.Loops.{
  tick_wait, tick_limit, typing_wait, tick_rounds, typing_rounds, Beside, Run, reads, sleeps,
  wait_first, show_status, attend, attend_run,
}
use fan_control_lian_li_wire.Probe.Later.{
  Later, print_line-Later, print_status-Later, set_all_initial-Later, typed_all-Later,
}
use fan_control_lian_li_wire.Dongle.{Port, Usb}

-- A sleep beside the engine's thread lasts at least as long as it is asked to.
pub record IsPatient (port : Port) (usb : Usb port) (time : Time) (beside : Beside port usb time)
    : Type 0 where
  pub sleeps_for :
      (threads : beside.Threads) (shared : Shared) (w : time.World) (d : ℕ)
      → (time.now w).0 + d ≤ (time.now (beside.sleep threads shared w d).2).0

-- A success, or a failure with a message or a panic.
abbrev pub HasEnded {ℓ} : {A : Type ℓ} {S : Type 0} → Result Stop A × S → Type 0
HasEnded (ok a, s) = Unit {0}
HasEnded (err e, s) = e ≢ unfinished

pub overflow_finishes : overflow ≢ unfinished
overflow_finishes h = cc

-- What follows a success cannot fail.
ended_ok {ℓ} :
    {A B : Type ℓ} {S : Type 0} (a : Result Stop A × S) (f : A → S → B)
    → HasEnded a
    → HasEnded (and_then a λ x s. (ok (f x s), s))
ended_ok (ok x, s) f h = tt
ended_ok (err e, s) f h = h

module _ (message : ℕ → Bytes) (port : Port) (usb : Usb port) (th : Toolhelp) (time : Time)
    (beside : Beside port usb time) (clock : IsClock time)
    (patient : IsPatient port usb time beside) where
  abbrev at_time : Run message port usb th time beside → ℕ
  at_time s = (time.now s.running.clocks).0

  -- As `HasEnded`, and after a success it is `from` or later.
  abbrev EndsAfter {ℓ} :
      {A : Type ℓ} → ℕ → Result Stop A × Run message port usb th time beside → Type 0
  EndsAfter from (ok a, s) = from ≤ at_time s
  EndsAfter from (err e, s) = e ≢ unfinished

  then-HasEnded {ℓ} :
      {A B : Type ℓ} (from : ℕ) (a : Result Stop A × Run message port usb th time beside)
      (f : A
        → Run message port usb th time beside
        → Result Stop B × Run message port usb th time beside)
      → EndsAfter from a
      → ((x : A) (s : Run message port usb th time beside) → from ≤ at_time s → HasEnded (f x s))
      → HasEnded (and_then a f)
  then-HasEnded from (ok x, s) f h k = k x s h
  then-HasEnded from (err e, s) f h k = h

  -- The loop that waits for the first tick; `last` is when it looked last, or began.
  wait_first-EndsAfter :
      (rounds : ℕ) (s : Run message port usb th time beside) (started last : ℕ)
      → started ≤ last
      → last ≤ at_time s
      → tick_limit < last - started + rounds * tick_wait
      → last - started ≤ tick_limit
      → EndsAfter started (wait_first message port usb th time beside rounds s started)
  unfolding wait_first
  wait_first-EndsAfter zero s started last h1 h2 h3 h4 = absurd (omega arith)
  wait_first-EndsAfter (suc rounds) s started last h1 h2 h3 h4 =
      let s1 = sleeps message port usb th time beside s tick_wait in
      let at = at_time s1 in
      let s2 = (reads message port usb th time beside s1).1 in
      let slept : at_time s + tick_wait ≤ at =
        patient.sleeps_for s.threads s.running.shared s.running.clocks tick_wait in
      let later : at ≤ at_time s2 = clock.reads s1.running.clocks in
      elim (Bool-cases (ltb tick_limit (duration_since at started))) [
        | inl e ↦ rw (e, wait_first, EndsAfter) (said_finishes _)
        | inr e ↦ elim (Bool-cases (ltb 0 s1.running.shared.snapshot.ticks)) [
          | inl f ↦ rw (e, f, wait_first, EndsAfter) (omega (arith, h1, h2, slept, later))
          | inr f ↦
              rw (e, f, wait_first, EndsAfter)
                (wait_first-EndsAfter rounds s2 started at (omega arith) later (omega arith)
                  (ground arith))
        ]
      ]

  show_status-late :
      (s : Run message port usb th time beside) (started every last : ℕ)
      → at_time s ≤ at_time (show_status message port usb th time beside s started every last).1
  unfolding show_status Later
  show_status-late s started every last =
      let s1 = (reads message port usb th time beside s).1 in
      let s2 = (reads message port usb th time beside s1).1 in
      let s3 = (reads message port usb th time beside s2).1 in
      let t1 : at_time s ≤ at_time s1 = clock.reads s.running.clocks in
      let t2 : at_time s1 ≤ at_time s2 = clock.reads s1.running.clocks in
      let t3 : at_time s2 ≤ at_time s3 = clock.reads s2.running.clocks in
      elim (Bool-cases (leb every (duration_since (at_time s) last))) [
        | inr e ↦ rw (e, show_status) t1
        | inl e ↦
            rw (e, show_status)
              (omega (
                arith,
                t1,
                t2,
                t3,
                print_status-Later time clock (duration_since (at_time s2) started) s3.running,
              ))
      ]

  -- The loop of the run, which looks at the clock at the start of each round; `from` is not later.
  attend-HasEnded :
      (rounds : ℕ) (s : Run message port usb th time beside) (options : RunOptions)
      (started last from : ℕ) (quit : Bool)
      → started ≤ from
      → from ≤ at_time s
      → options.length ≤ from - started + rounds * typing_wait
      → HasEnded (attend message port usb th time beside (suc rounds) s options started last quit)
  unfolding attend Later
  attend-HasEnded zero s options started last from quit h1 h2 h3 =
      let e : ltb (duration_since (at_time s) started) options.length ≡ false = ground arith in
      rw (e, attend, HasEnded) tt
  attend-HasEnded (suc rounds) s options started last from quit h1 h2 h3 =
      let s1 = (reads message port usb th time beside s).1 in
      let s2 = sleeps message port usb th time beside s1 typing_wait in
      let (lines, threads) = beside.take_lines s2.threads in
      let running = (typed_all time s2.running lines).1 in
      let quits = (typed_all time s2.running lines).0 in
      let typed_on : Run message port usb th time beside = record {
        running = running;
        threads = threads;
      } in
      let shown = show_status message port usb th time beside typed_on started options.every last in
      let t1 : at_time s ≤ at_time s1 = clock.reads s.running.clocks in
      let t2 : at_time s1 + typing_wait ≤ at_time s2 =
        patient.sleeps_for s1.threads s1.running.shared s1.running.clocks typing_wait in
      let t3 : at_time s2 ≤ at_time typed_on = typed_all-Later time clock s2.running lines in
      let t4 : at_time typed_on ≤ at_time shown.1 =
        show_status-late typed_on started options.every last in
      elim (Bool-cases (ltb (duration_since (at_time s) started) options.length && not quit)) [
        | inr e ↦ rw (e, attend, HasEnded) tt
        | inl e ↦
            rw (e, attend, HasEnded)
              (attend-HasEnded rounds shown.1 options started shown.0 (from + typing_wait) quits
                (omega (arith, h1)) (omega (arith, h2, t1, t2, t3, t4)) (omega (arith, h3, h1)))
      ]

  pub attend_run-HasEnded :
      (s0 : Run message port usb th time beside) (options : RunOptions)
      → HasEnded (attend_run message port usb th time beside s0 options)
  unfolding attend_run Later
  attend_run-HasEnded s0 options =
      let started = at_time s0 in
      let s = (reads message port usb th time beside s0).1 in
      then-HasEnded started (wait_first message port usb th time beside tick_rounds s started) _
        (wait_first-EndsAfter tick_rounds s started started (omega arith)
          (clock.reads s0.running.clocks) (omega arith) (omega arith))
        λ first s1 h1.
          let starting = starting_of first in
          let r2 = print_line time (starting_text starting) s1.running in
          let r3 = set_all_initial time first r2 options.initial in
          let s3 : Run message port usb th time beside = record {
            running = r3;
            threads = s1.threads;
          } in
          let s4 = (reads message port usb th time beside s3).1 in
          let t2 : at_time s1 ≤ (time.now r2.clocks).0 =
            print_line-Later time clock (starting_text starting) s1.running in
          let t3 : (time.now r2.clocks).0 ≤ (time.now r3.clocks).0 =
            set_all_initial-Later time clock first r2 options.initial in
          let t4 : at_time s3 ≤ at_time s4 = clock.reads r3.clocks in
          elim (Bool-cases (ltb (at_time s3) options.every)) [
            | inl e ↦ rw (e, HasEnded) overflow_finishes
            | inr e ↦ rw e (
                ended_ok
                  (attend message port usb th time beside (typing_rounds options.length) s4 options
                    started (at_time s3 - options.every) false)
                  _
                  (attend-HasEnded (suc (options.length / typing_wait)) s4 options started _ started
                    false (omega arith) (omega (arith, h1, t2, t3, t4)) (omega arith)))
          ]
