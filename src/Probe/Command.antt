-- ===== src/Probe/Command.antt =====
-- src/bin/probe.rs: `discover`, `set` and the refusal to run beside L-Connect. What is outside of
-- the program are the dongles (`Usb`), the process list (`Toolhelp`) and the clocks (`Time`).
use fan_control_lian_li_wire.Base.{
  ℕ, zero, suc, ◌+◌, Bool, true, false, Option, none, some, List, [], ◌∷◌, ◌++◌, map, ltb,
  if◌then◌else◌, length, Bytes, bytes, decimal, Result, ok, err, ◌>>=◌, map_err, and_then,
  map_error,
}
use fan_control_lian_li_wire.Discovery.{Device}
use fan_control_lian_li_wire.Probe.Text.{mac, describe_master, describe}
use fan_control_lian_li_wire.Probe.Options.{parse_discover, SetOptions, parse_set}
use fan_control_lian_li_wire.Probe.Resolve.{choose}
use fan_control_lian_li_wire.Win.{WinError, win_error_text}
use fan_control_lian_li_wire.Process.{lconnect_service, Toolhelp, running}
use fan_control_lian_li_wire.Engine.Drive.{wanted_duties}
use fan_control_lian_li_wire.Dongle.{Port, connect, Usb, Dongle, open_with, poll}
use fan_control_lian_li_wire.Probe.Session.{
  poll_gap, Time, Stop, said, unfinished, overflow, Session, say, sleep, open_on, heartbeat, apply,
  hold,
}
use fan_control_lian_li_wire.Dongle

-- What a command leaves: its result, what the rest of the system is then, and what was printed.
pub record Outside (port : Port) (usb : Usb port) (th : Toolhelp) (time : Time) : Type 0 where
  pub dongles : usb.World
  pub programs : th.World
  pub clocks : time.World
  pub printed : List Bytes

abbrev pub lconnect_runs : Bytes
lconnect_runs = lconnect_service ++ bytes " is running and owns the dongle; stop it first"

module _ (message : ℕ → Bytes) (port : Port) (time : Time) where
  -- The line on the dongle that is open.
  abbrev pub master_line : Dongle port → Bytes
  master_line d =
      bytes "master " ++ mac d.master.master_mac ++ bytes " channel " ++ decimal d.channel

  -- The end of `set`: the target and what is held, and then the restore in every case.
  unfoldable pub drive_and_restore :
      Session port time → Device → SetOptions → Result Stop (Unit {0}) × Session port time
  drive_and_restore s device options =
      let wanted = wanted_duties options.percent device.fan_count in
      let what = bytes "set " ++ decimal options.percent ++ bytes "%" in
      let (held, s1) =
        and_then (apply message port time s device.mac wanted what)
          λ done s'. hold message port time s' device.mac options.hold in
      let (restored, s2) = apply message port time s1 device.mac device.duty (bytes "restore") in
      (held >>= (λ done. restored), s2)

  -- `set` on a group that was chosen.
  unfoldable pub set_device :
      Session port time → Device → SetOptions → Result Stop (Unit {0}) × Session port time
  set_device s device options =
      and_then
        (apply message port time (say (bytes "group " ++ describe device) s) device.mac device.duty
          (bytes "echo"))
        λ done s'. drive_and_restore s' device options

  abbrev pub chosen :
      Session port time
      → SetOptions
      → Result Bytes Device
      → Result Stop (Unit {0}) × Session port time
  chosen s options (ok device) = set_device s device options
  chosen s options (err why) = (err (said why), s)

  -- `set` in a session.
  unfoldable pub set_in :
      Session port time → SetOptions → Result Stop (Unit {0}) × Session port time
  set_in s options =
      and_then (heartbeat message port time (say (master_line s.dongle) s)) λ beat s1.
        and_then (fan_control_lian_li_wire.Probe.Session.poll message port time s1)
          λ seen s2. chosen s2 options (choose s2.tracker options.group)

  -- The rounds of `discover`: `count` are left, and the next is number `n`.
  unfoldable pub discover_polls :
      ℕ
      → ℕ
      → Dongle port
      → time.World
      → List Bytes
      → Result Bytes (Unit {0}) × (time.World × List Bytes)
  discover_polls zero n d w lines = (ok tt, (w, lines))
  discover_polls (suc count) n d w lines =
      let slept = if ltb 1 n then time.sleep w poll_gap else w in
      let (got, d') = Dongle.poll port d in
      elim got [
        | err e ↦ (err (Dongle.error_text message e), (slept, lines))
        | ok answer ↦
            let line =
              bytes "poll "
              ++ decimal n
              ++ bytes ": "
              ++ decimal answer.reported
              ++ bytes " reported, "
              ++ decimal (length answer.masters)
              ++ bytes " master, "
              ++ decimal (length answer.devices)
              ++ bytes " devices" in
            discover_polls count (n + 1) d' slept (
              lines
              ++ (line
                  ∷ (map (λ m. bytes "  " ++ describe_master m) answer.masters
                      ++ map (λ x. bytes "  " ++ describe x) answer.devices)))
      ]

module _ (message : ℕ → Bytes) (port : Port) (usb : Usb port) (th : Toolhelp) (time : Time)
    (rounds : ℕ) where
  abbrev pub World : Type 0
  World = Outside port usb th time

  abbrev pub refusal : Option (Result WinError Bool) → Result Stop (Unit {0})
  refusal none = err unfinished
  refusal (some (err e)) = err (said (win_error_text message e))
  refusal (some (ok true)) = err (said lconnect_runs)
  refusal (some (ok false)) = ok tt

  -- `rounds` are given to the walk over the programs.
  unfoldable pub refuse_if_lconnect_runs : World → Result Stop (Unit {0}) × World
  refuse_if_lconnect_runs w =
      let (answer, programs) = running th rounds w.programs lconnect_service in
      (refusal answer, record w { programs = programs })

  -- `Dongle::open`.
  abbrev pub open_dongle : World → Result Stop (Dongle port) × World
  open_dongle w =
      let (opened, dongles) = open_with port usb w.dongles none in
      (map_err (λ e. said (Dongle.error_text message e)) opened, record w { dongles = dongles })

  abbrev pub left :
      World → Result Stop (Unit {0}) × Session port time → Result Stop (Unit {0}) × World
  left w (r, s) = (r, record w { clocks = s.world; printed = s.printed })

  unfoldable pub set : List Bytes → World → Result Stop (Unit {0}) × World
  unfolding refuse_if_lconnect_runs
  set args w =
      and_then (map_err said (parse_set args), w)
        λ options w1. and_then (refuse_if_lconnect_runs w1) λ free w2.
          and_then (open_dongle w2) λ d w3.
            left w3
              (set_in message port time (open_on message port time d w3.clocks w3.printed) options)

  -- With `--share` the program list is not read; without it the message says how to go on.
  abbrev pub share_hint : Stop → Stop
  share_hint (said why) = said (why ++ bytes ", or pass --share to try anyway")
  share_hint unfinished = unfinished
  share_hint overflow = overflow

  abbrev pub polled :
      World → Result Bytes (Unit {0}) × (time.World × List Bytes) → Result Stop (Unit {0}) × World
  polled w (r, (clocks, lines)) =
      (map_err said r, record w { clocks = clocks; printed = w.printed ++ lines })

  unfoldable pub discover : List Bytes → World → Result Stop (Unit {0}) × World
  unfolding refuse_if_lconnect_runs
  discover args w =
      and_then (map_err said (parse_discover args), w)
        λ options w1.
          and_then
            (if options.share
              then (ok tt, w1)
              else map_error share_hint (refuse_if_lconnect_runs w1))
            λ free w2. and_then (open_dongle w2) λ d w3.
              let line =
                master_line message port time d
                ++ bytes " firmware "
                ++ decimal d.master.firmware in
              polled w3 (discover_polls message port time options.polls 1 d w3.clocks (line ∷ []))
