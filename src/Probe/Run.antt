-- ===== src/Probe/Run.antt =====
-- src/bin/probe.rs, `run`: what it does beside the engine's thread. `Running` is what it shares with
-- the engine, the clocks and what is printed; between two of these steps the thread may have
-- replaced the snapshot. Reading the standard input and the waiting are not modelled.
use fan_control_lian_li_wire.Base.{
  ℕ, ◌/◌, ◌%◌, ◌^◌, Bool, true, false, ◌||◌, Option, none, some, List, [], ◌∷◌, ◌++◌, map, ltb, leb,
  if◌then◌else◌, length, filter_map, Bytes, bytes_eq, bytes, decimal, list_text, join_with,
  pad_left, as_secs, Result, ok, err, and_then, to_ascii_lowercase, split_once, trim, parse,
}
use fan_control_lian_li_wire.Probe.Text.{fans, mac}
use fan_control_lian_li_wire.Probe.Resolve.{resolve}
use fan_control_lian_li_wire.Heartbeat.{Clock}
use fan_control_lian_li_wire.Clock.{local}
use fan_control_lian_li_wire.Engine.{alarm_text, GroupState, Snapshot}
use fan_control_lian_li_wire.Engine.Host.{Shared, set_percent}
use fan_control_lian_li_wire.Dongle.{Port}
use fan_control_lian_li_wire.Probe.Session.{
  Time, Stop, said, unfinished, overflow, Session, now, heartbeat, apply,
}

unfoldable pub stamp : Clock → Bytes
stamp clock =
    pad_left b'0' 2 (decimal clock.hour)
    ++ bytes ":"
    ++ pad_left b'0' 2 (decimal clock.minute)
    ++ bytes ":"
    ++ pad_left b'0' 2 (decimal clock.second)

pub record Running (time : Time) : Type 0 where
  pub shared : Shared
  pub clocks : time.World
  pub printed : List Bytes

-- A group as it started: its address, its duties and its fans.
abbrev pub Started : Type 0
Started = Bytes × Bytes × ℕ

unfoldable pub starting_of : Snapshot → List Started
starting_of first = map (λ g. (g.mac, g.duty, g.fan_count)) first.groups

unfoldable pub starting_text : List Started → Bytes
starting_text starting =
    decimal (length starting)
    ++ bytes " groups; starting duties "
    ++ join_with (bytes ", ") (map (λ s. mac s.0 ++ bytes " " ++ list_text (fans s.1 s.2)) starting)

abbrev pub target_text : GroupState → Bytes
target_text g = elim g.target [
  | none ↦ bytes "none"
  | some t ↦
      list_text (fans t g.fan_count) ++ (if g.acknowledged then [] else bytes " (unacknowledged)")
]

unfoldable pub group_line : GroupState → Bytes
group_line g =
    bytes "  "
    ++ mac g.mac
    ++ bytes " "
    ++ (if g.online then bytes "online " else bytes "OFFLINE")
    ++ bytes " duty "
    ++ list_text (fans g.duty g.fan_count)
    ++ bytes " target "
    ++ target_text g
    ++ bytes " rpm "
    ++ list_text (fans g.rpm g.fan_count)
    ++ (if ltb 1 g.unacknowledged
        then bytes " sent " ++ decimal g.unacknowledged ++ bytes " times without confirmation"
        else [])

unfoldable pub status_line : Snapshot → ℕ → Bytes
status_line snapshot elapsed =
    pad_left b' ' 3 (decimal (as_secs elapsed / 60))
    ++ bytes ":"
    ++ pad_left b'0' 2 (decimal (as_secs elapsed % 60))
    ++ bytes " ticks "
    ++ decimal snapshot.ticks
    ++ bytes " polls "
    ++ decimal snapshot.polls
    ++ bytes " failed "
    ++ decimal snapshot.poll_failures
    ++ bytes " reconnects "
    ++ decimal snapshot.reconnects
    ++ bytes " unreadable records "
    ++ decimal snapshot.skipped_records
    ++ elim snapshot.alarm [
      | none ↦ []
      | some why ↦ bytes " FAILSAFE (" ++ alarm_text why ++ bytes ")"
    ]

-- What the groups are put back to once the engine has stopped.
unfoldable pub wanted_after : Bool → List Started → Snapshot → List (Bytes × Bytes)
wanted_after true starting last =
    filter_map (λ g. elim g.target [ none ↦ none | some t ↦ some (g.mac, t) ]) last.groups
wanted_after false starting last = map (λ s. (s.0, s.1)) starting

abbrev pub is_quit : Bytes → Bool
is_quit line = bytes_eq line (bytes "q") || bytes_eq line (bytes "quit")

-- `percent.trim().parse::<u8>()`, where it is at most 100.
abbrev pub typed_percent : Bytes → Option ℕ
typed_percent percent = elim (parse (2 ^ 8) (trim percent)) [
  | none ↦ none
  | some p ↦ if leb p 100 then some p else none
]

module _ (time : Time) where
  -- `println!("{} | ..", stamp(), ..)`.
  unfoldable pub print_line : Bytes → Running time → Running time
  unfolding stamp
  print_line line s =
      let (clock, w) = time.local_time s.clocks in
      record s {
        clocks = w;
        printed = s.printed ++ ((stamp (local clock) ++ bytes " | " ++ line) ∷ []);
      }

  abbrev pub print_lines : List Bytes → Running time → Running time
  print_lines [] s = s
  print_lines (line ∷ rest) s = print_lines rest (print_line line s)

  unfoldable pub print_status : ℕ → Running time → Running time
  unfolding print_line
  print_status elapsed s =
      print_lines (map group_line s.shared.snapshot.groups)
        (print_line (status_line s.shared.snapshot elapsed) s)

  abbrev asked : Running time → Bytes → ℕ → Running time
  asked s target percent = record s { shared = set_percent s.shared target percent }

  -- One of the groups that the command line sets.
  unfoldable pub set_initial : Snapshot → Running time → Bytes × ℕ → Running time
  set_initial first s (prefix, percent) = elim (resolve first prefix) [
    | ok target ↦ asked s target percent
    | err message ↦ print_line message s
  ]

  unfoldable pub set_all_initial : Snapshot → Running time → List (Bytes × ℕ) → Running time
  unfolding set_initial
  set_all_initial first s [] = s
  set_all_initial first s (a ∷ rest) = set_all_initial first (set_initial first s a) rest

  -- A line `<group> <percent>`.
  unfoldable pub request_line : Running time → Bytes → Bytes → Running time
  request_line s prefix percent = elim (resolve s.shared.snapshot prefix) [
    | err message ↦ print_line message s
    | ok target ↦ elim (typed_percent percent) [
      | none ↦ print_line (bytes "'" ++ percent ++ bytes "' is not a percent from 0 to 100") s
      | some p ↦
          print_line (bytes "you asked for " ++ decimal p ++ bytes "% on " ++ mac target)
            (asked s target p)
    ]
  ]

  -- One line that was typed, and whether it ends the run.
  unfoldable pub typed : Running time → Bytes → Bool × Running time
  unfolding request_line
  typed s raw =
      let line = to_ascii_lowercase (trim raw) in
      if is_quit line then (true, s) else (
        false,
        elim (split_once b' ' line) [
          | some (prefix, percent) ↦ request_line s prefix percent
          | none ↦
              if bytes_eq line [] then s else print_line (bytes "type '<group> <percent>' or 'q'") s
        ],
      )

  -- The lines that wait; the rest is left where one of them ends the run.
  unfoldable pub typed_all : Running time → List Bytes → Bool × Running time
  unfolding typed
  typed_all s [] = (false, s)
  typed_all s (raw ∷ rest) =
      let (quit, s') = typed s raw in elim quit [ true ↦ (true, s') | false ↦ typed_all s' rest ]

module _ (message : ℕ → Bytes) (port : Port) (time : Time) where
  abbrev pub confirm_text : Bytes → Bytes
  confirm_text target = bytes "confirm " ++ mac target

  -- The last loop of `run`: the messages of the groups that did not confirm.
  unfoldable pub confirm_all :
      Session port time
      → List (Bytes × Bytes)
      → List Bytes
      → Result Stop (List Bytes) × Session port time
  confirm_all s [] failures = (ok failures, s)
  confirm_all s ((target, duty) ∷ rest) failures =
      let (done, s') = apply message port time s target duty (confirm_text target) in
      elim done [
        | ok _ ↦ confirm_all s' rest failures
        | err (said why) ↦ confirm_all s' rest (failures ++ (why ∷ []))
        | err unfinished ↦ (err unfinished, s')
        | err overflow ↦ (err overflow, s')
      ]

  abbrev pub concluded : List Bytes → Result Stop (Unit {0})
  concluded [] = ok tt
  concluded (why ∷ more) = err (said (join_with (bytes "; ") (why ∷ more)))

  -- What follows the engine, in a session.
  unfoldable pub put_back :
      Session port time → List (Bytes × Bytes) → Result Stop (Unit {0}) × Session port time
  unfolding confirm_all
  put_back s wanted = and_then (heartbeat message port time s) λ beat s1.
      and_then (fan_control_lian_li_wire.Probe.Session.poll message port time s1)
        λ seen s2. and_then (confirm_all s2 wanted []) λ failures s3. (concluded failures, s3)
