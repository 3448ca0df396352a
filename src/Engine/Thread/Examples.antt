-- ===== src/Engine/Thread/Examples.antt =====
-- src/engine.rs: a thread that is asked for a percentage, ticks once, and is told to stop.
use fan_control_lian_li_wire.Engine.Counting.{Answers, in_a_row}
use fan_control_lian_li_wire.Engine.Thread.Said.{said}
use fan_control_lian_li_wire.Dongle
use fan_control_lian_li_wire.Base.{
  ◌%◌, ◌^◌, Bool, true, false, [], ◌∷◌, err, ℕ, ◌+◌, ◌-◌, ◌/◌, ◌≤◌, ◌≡◌, refl, List, [], ◌++◌,
  arith, Bytes, secs, millis, ok,
}
use fan_control_lian_li_wire.Heartbeat.{Clock}
use fan_control_lian_li_wire.Engine.{Link}
use fan_control_lian_li_wire.Discovery.Samples.{dongle_mac, mac_a}
use fan_control_lian_li_wire.Engine.Host.{set_percent}
use fan_control_lian_li_wire.Engine.Sound.{IsSound}
use fan_control_lian_li_wire.Engine.Thread.{
  over, stop, Thread, spawn, move, call, asks, stops, moves, Reach, at_start, goes_on,
}
use fan_control_lian_li_wire.Engine.Thread.Sound.{Reach-IsSound}
use fan_control_lian_li_wire.Engine.Thread.Pace.{Reach-rounds}
use fan_control_lian_li_wire.Engine.Thread.Ending.{last_lines, next_three, Reach-ends}

abbrev no_text : ℕ → Bytes
no_text code = []

-- A dongle that takes everything and answers no poll, and remembers how each one went.
abbrev quiet : Link
quiet = record {
  Carrier = List Bool;
  master_mac = λ l. dongle_mac;
  channel = λ l. 8;
  poll = λ l. (err Dongle.closed, false ∷ l);
  send = λ l channel to payload. (ok tt, l);
  reconnect = λ l every_channel. (ok tt, true ∷ l);
}

abbrev noon : Clock
noon = record { year = 2026; month = 7; day = 1; hour = 12; minute = 0; second = 0 }

abbrev spawned : Thread no_text quiet
spawned = spawn no_text quiet [] (secs 1)

abbrev asked : Thread no_text quiet
asked = call no_text quiet (λ s. set_percent s mac_a 50) spawned

abbrev ticked : Thread no_text quiet
ticked = move no_text quiet asked.phase asked (secs 2) noon

abbrev told : Thread no_text quiet
told = call no_text quiet stop ticked

told-Reach : Reach no_text quiet [] (secs 1) 1 (secs 2) told
unfolding spawn call move stop set_percent
told-Reach =
    goes_on
      (goes_on (goes_on at_start (asks mac_a 50)) (moves (secs 2) noon (omega arith) (omega arith)))
      stops

abbrev remembered : Answers quiet
remembered = record {
  given = λ l. l;
  polls = λ l. refl;
  reconnects = λ l every. refl;
  sends = λ l channel to payload. refl;
}

Reach-IsSound_example :
    IsSound told.loop.core told.loop.shared.snapshot
    × (told.loop.core.failures_in_a_row ≡ in_a_row (remembered.given told.loop.carrier) % 2 ^ 32)
    × (told.loop.log ≡ said told-Reach)
    × (told.loop.core.tracker.master_mac ≡ dongle_mac)
Reach-IsSound_example = Reach-IsSound remembered refl told-Reach

Reach-rounds_example : 1 ≤ (secs 2 - secs 1) / secs 1 + 1
Reach-rounds_example = Reach-rounds told-Reach

Reach-ends_example :
    let t' = next_three no_text quiet told (secs 3) (secs 4) (secs 5) noon in
    (told.wake ≤ secs 2 + millis 50)
    × (t'.phase ≡ over)
    × ((lines : List Bytes) × (t'.loop.log ≡ lines ++ last_lines))
unfolding spawn call move stop
Reach-ends_example = Reach-ends told-Reach refl (secs 3) (secs 4) (secs 5) noon
