-- ===== src/Engine/Thread/Said.antt =====
-- src/engine.rs, `Engine`: the lines that the thread of a history has logged.
use fan_control_lian_li_wire.Base.{ℕ, List, [], ◌∷◌, ◌++◌, Bytes, bytes, decimal}
use fan_control_lian_li_wire.Heartbeat.{Clock}
use fan_control_lian_li_wire.Engine.{Link, text}
use fan_control_lian_li_wire.Engine.Tick.{tick, shutdown, serve_all}
use fan_control_lian_li_wire.Engine.Thread.{
  Phase, running, paused, waiting, stopping, over, Thread, Step, asks, gives_up, stops, moves,
  Reach, at_start, goes_on,
}

abbrev pub opening : (link : Link) → link.Carrier → List Bytes
opening link l =
    (bytes "engine started: master "
      ++ text (link.master_mac l)
      ++ bytes " channel "
      ++ decimal (link.channel l))
    ∷ []

module _ {message : ℕ → Bytes} {link : Link} where
  -- The events of the tick or of the shutdown that a move runs, and the last line.
  abbrev pub lines_of : Phase → Thread message link → ℕ → Clock → List Bytes
  lines_of running t now clock =
      let served = serve_all t.loop.core t.loop.shared.requests in
      (tick message link served t.loop.carrier now clock).0.events
  lines_of paused t now clock = []
  lines_of waiting t now clock = []
  lines_of stopping t now clock =
      (shutdown message link t.loop.core t.loop.carrier now).0.events
      ++ (bytes "engine stopped" ∷ [])
  lines_of over t now clock = []

  -- What a step has to say.
  abbrev pub lines :
      {now later : ℕ} {t t' : Thread message link} → Step message link now t later t' → List Bytes
  lines (asks mac percent) = []
  lines (gives_up mac) = []
  lines stops = []
  lines {t} (moves later clock le wake) = lines_of t.phase t later clock

  -- Every line of a history, from the first, in order.
  abbrev pub said :
      {l : link.Carrier} {spawned rounds now : ℕ} {t : Thread message link}
      → Reach message link l spawned rounds now t
      → List Bytes
  said {l} at_start = opening link l
  said (goes_on r s) = said r ++ lines s
