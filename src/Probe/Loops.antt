-- ===== src/Probe/Loops.antt =====
-- src/bin/probe.rs, `run`, whole: the wait for the first tick, the loop beside the engine's thread,
-- and what follows. `Beside` is what goes on meanwhile: the engine's thread and the thread that reads
-- the standard input. The lines that wait are taken at once. The subtraction that the time of the
-- last status begins with panics where the clock reads less than the time between two; the engine
-- is then dropped, as at an error.
use fan_control_lian_li_wire.Base.{
  ℕ, zero, suc, ◌-◌, ◌/◌, Bool, true, false, not, ◌&&◌, List, [], ltb, leb, if◌then◌else◌, length,
  Bytes, bytes, secs, millis, duration_since, Result, ok, err, map_err, and_then,
}
use fan_control_lian_li_wire.Process.{Toolhelp, last, running}
use fan_control_lian_li_wire.Engine.{Snapshot, first_snapshot}
use fan_control_lian_li_wire.Engine.Host.{Shared}
use fan_control_lian_li_wire.Probe.Options.{RunOptions, parse_run}
use fan_control_lian_li_wire.Probe.Session.{Time, Stop, said, unfinished, overflow, open_on}
use fan_control_lian_li_wire.Probe.Run.{
  Running, Started, starting_of, starting_text, wanted_after, print_line, print_status,
  set_all_initial, typed_all, put_back,
}
use fan_control_lian_li_wire.Probe.Command.{Outside, refuse_if_lconnect_runs, open_dongle, left}
use fan_control_lian_li_wire.Dongle.{Port, Usb, Dongle}
use fan_control_lian_li_wire.Engine.Thread.{stop}

abbrev pub tick_wait : ℕ
tick_wait = millis 200

abbrev pub tick_limit : ℕ
tick_limit = secs 10

abbrev pub typing_wait : ℕ
typing_wait = millis 250

-- As many rounds as fit, when each sleeps for its wait.
abbrev pub tick_rounds : ℕ
tick_rounds = suc (tick_limit / tick_wait)

abbrev pub typing_rounds : ℕ → ℕ
typing_rounds length = suc (suc (length / typing_wait))

-- The threads beside the command: what a sleep brings, the lines that wait, and the end of the
-- engine's thread, which gives the dongles back.
pub record Beside (port : Port) (usb : Usb port) (time : Time) : Type 1 where
  pub Threads : Type 0
  -- `Engine::start` on a dongle, at a time.
  pub spawn : Dongle port → usb.World → Threads
  pub sleep : Threads → Shared → time.World → ℕ → Threads × Shared × time.World
  pub take_lines : Threads → List Bytes × Threads
  -- `thread.join`, of the engine's thread that was told to stop.
  pub join : Threads → Shared → time.World → usb.World × time.World

module _ (message : ℕ → Bytes) (port : Port) (usb : Usb port) (th : Toolhelp) (time : Time)
    (beside : Beside port usb time) where
  pub record Run : Type 0 where
    pub running : Running time
    pub threads : beside.Threads

  -- `Instant::now`.
  abbrev pub reads : Run → ℕ × Run
  reads s =
      let (t, w) = time.now s.running.clocks in
      (t, record s { running = record s.running { clocks = w } })

  -- `thread::sleep`.
  abbrev pub sleeps : Run → ℕ → Run
  sleeps s d =
      let (threads, shared, w) = beside.sleep s.threads s.running.shared s.running.clocks d in
      record { running = record s.running { shared = shared; clocks = w }; threads = threads }

  abbrev pub on_running : (Running time → Running time) → Run → Run
  on_running f s = record s { running = f s.running }

  -- The wait for the first tick.
  unfoldable pub wait_first : ℕ → Run → ℕ → Result Stop Snapshot × Run
  wait_first zero s started = (err unfinished, s)
  wait_first (suc rounds) s started =
      let s1 = sleeps s tick_wait in
      let seen = s1.running.shared.snapshot in
      let (at, s2) = reads s1 in
      elim (ltb tick_limit (duration_since at started)) [
        | true ↦ (err (said (bytes "the engine did not tick within 10 s")), s2)
        | false ↦ elim (ltb 0 seen.ticks) [
          | true ↦ (ok seen, s2)
          | false ↦ wait_first rounds s2 started
        ]
      ]

  -- The status, where it is due, with the time of the last.
  unfoldable pub show_status : Run → ℕ → ℕ → ℕ → ℕ × Run
  unfolding print_status
  show_status s started every last =
      let (at, s1) = reads s in
      elim (leb every (duration_since at last)) [
        | false ↦ (last, s1)
        | true ↦
            let (shown, s2) = reads s1 in
            let (seen, s3) = reads s2 in
            (shown, on_running (print_status time (duration_since seen started)) s3)
      ]

  -- The loop of the run; `last` is when the status was shown.
  unfoldable pub attend : ℕ → Run → RunOptions → ℕ → ℕ → Bool → Result Stop (Unit {0}) × Run
  unfolding typed_all show_status
  attend zero s options started last quit = (err unfinished, s)
  attend (suc rounds) s options started last quit =
      let (at, s1) = reads s in
      elim (ltb (duration_since at started) options.length && not quit) [
        | false ↦ (ok tt, s1)
        | true ↦
            let s2 = sleeps s1 typing_wait in
            let (lines, threads) = beside.take_lines s2.threads in
            let (quits, running) = typed_all time s2.running lines in
            let (last', s3) =
              show_status (record { running = running; threads = threads }) started options.every
                last in
            attend rounds s3 options started last' quits
      ]

  -- What is left when the loop has ended: what the groups started with, and what to put them to.
  abbrev pub Ended : Type 0
  Ended = List (Bytes × Bytes) × usb.World × time.World × List Bytes

  -- The engine is stopped.
  unfoldable pub end_run : Run → RunOptions → List Started → Ended
  unfolding print_line stop
  end_run s options starting =
      let s1 = print_line time (bytes "stopping the engine") s.running in
      let last = s1.shared.snapshot in
      let (dongles, clocks) = beside.join s.threads (stop s1.shared) s1.clocks in
      let said_so =
        print_line time
          (if options.leave
            then bytes "confirming the last targets"
            else bytes "putting the groups back")
          (record s1 { clocks = clocks }) in
      (wanted_after options.leave starting last, dongles, said_so.clocks, said_so.printed)

  -- The run beside the engine, from its start to its end.
  unfoldable pub attend_run : Run → RunOptions → Result Stop Ended × Run
  unfolding wait_first attend end_run set_all_initial
  attend_run s0 options =
      let (started, s) = reads s0 in
      and_then (wait_first tick_rounds s started) λ first s1.
        let starting = starting_of first in
        let s2 = on_running (print_line time (starting_text starting)) s1 in
        let s3 = on_running (λ r. set_all_initial time first r options.initial) s2 in
        let (at, s4) = reads s3 in
        elim (ltb at options.every) [
          | true ↦ (err overflow, s4)
          | false ↦
              and_then
                (attend (typing_rounds options.length) s4 options started (at - options.every)
                  false)
                λ done s5. (ok (end_run s5 options starting), s5)
        ]

  -- The engine on a dongle that is open, as it starts.
  unfoldable pub begin_run : Dongle port → Outside port usb th time → Run
  begin_run d w = record {
    running = record {
      shared = record {
        snapshot = first_snapshot d.master.master_mac d.channel;
        requests = [];
        stop = false;
      };
      clocks = w.clocks;
      printed = w.printed;
    };
    threads = beside.spawn d w.dongles;
  }

  abbrev pub outside_after :
      Outside port usb th time → usb.World → time.World → List Bytes → Outside port usb th time
  outside_after w dongles clocks printed = record w {
    dongles = dongles;
    clocks = clocks;
    printed = printed;
  }

  -- The session after the engine; an engine that has not ticked is dropped, which stops it.
  unfoldable pub after_run :
      ℕ
      → Outside port usb th time
      → Result Stop Ended × Run
      → Result Stop (Unit {0}) × Outside port usb th time
  unfolding put_back stop
  after_run rounds w (ok (wanted, dongles, clocks, printed), s) =
      and_then
        (open_dongle message port usb th time rounds (outside_after w dongles clocks printed))
        λ d w'.
          left message port usb th time rounds w'
            (put_back message port time (open_on message port time d w'.clocks w'.printed) wanted)
  after_run rounds w (err why, s) =
      let (dongles, clocks) = beside.join s.threads (stop s.running.shared) s.running.clocks in
      (err why, outside_after w dongles clocks s.running.printed)

  -- `rounds` are given to the walk over the programs.
  unfoldable pub run :
      ℕ → List Bytes → Outside port usb th time → Result Stop (Unit {0}) × Outside port usb th time
  unfolding attend_run after_run begin_run
  run rounds args w =
      and_then (map_err said (parse_run args), w)
        λ options w1.
          and_then (refuse_if_lconnect_runs message port usb th time rounds w1) λ free w2.
            and_then (open_dongle message port usb th time rounds w2)
              λ d w3. after_run rounds w3 (attend_run (begin_run d w3) options)
