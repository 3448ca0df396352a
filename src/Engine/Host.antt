-- ===== src/Engine/Host.antt =====
-- src/engine.rs, `Engine`: what the host's calls and the loop's thread share. One round of the loop
-- is one step; the waiting between rounds is the thread's, and the panics that a tick may raise are
-- not modelled.
use fan_control_lian_li_wire.Base.{ℕ, Bool, false, List, [], ◌∷◌, ◌++◌, Bytes, bytes, decimal}
use fan_control_lian_li_wire.Heartbeat.{Clock}
use fan_control_lian_li_wire.Engine.{Link, Snapshot, Core, first_snapshot, new, text, take_events}
use fan_control_lian_li_wire.Engine.Tick.{
  tick, shutdown, Request, want_percent, release_group, serve_all,
}

pub record Shared : Type 0 where
  pub snapshot : Snapshot
  pub requests : List Request
  pub stop : Bool

unfoldable pub set_percent : Shared → Bytes → ℕ → Shared
set_percent s mac percent = record s { requests = s.requests ++ (want_percent mac percent ∷ []) }

unfoldable pub clear : Shared → Bytes → Shared
clear s mac = record s { requests = s.requests ++ (release_group mac ∷ []) }

module _ (message : ℕ → Bytes) (link : Link) where
  -- The core, the link, what is shared, and the lines logged so far.
  pub record Loop : Type 0 where
    pub core : Core
    pub carrier : link.Carrier
    pub shared : Shared
    pub log : List Bytes

  unfoldable pub start : link.Carrier → Loop
  unfolding new text
  start l = record {
    core = new (link.master_mac l) (link.channel l);
    carrier = l;
    shared = record {
      snapshot = first_snapshot (link.master_mac l) (link.channel l);
      requests = [];
      stop = false;
    };
    log =
        (bytes "engine started: master "
          ++ text (link.master_mac l)
          ++ bytes " channel "
          ++ decimal (link.channel l))
        ∷ [];
  }

  -- The requests are taken and served, a tick is run, its events are logged and its snapshot shown.
  unfoldable pub round : Loop → ℕ → Clock → Loop
  unfolding take_events
  round s started clock =
      let (core, carrier) =
        tick message link (serve_all s.core s.shared.requests) s.carrier started clock in
      let (events, rest) = take_events core in
      record {
        core = rest;
        carrier = carrier;
        shared = record s.shared { snapshot = core.snapshot; requests = [] };
        log = s.log ++ events;
      }

  -- What follows the loop once it is told to stop.
  unfoldable pub finish : Loop → ℕ → Loop
  unfolding take_events
  finish s now =
      let (core, carrier) = shutdown message link s.core s.carrier now in
      let (events, rest) = take_events core in
      record {
        core = rest;
        carrier = carrier;
        shared = record s.shared { snapshot = core.snapshot };
        log = s.log ++ events ++ (bytes "engine stopped" ∷ []);
      }
