-- ===== src/Probe/Examples.antt =====
-- src/bin/probe.rs at concrete inputs: a receiver that reports one group, which is at its duties.
use fan_control_lian_li_wire.Base.{
  ℕ, suc, ◌+◌, ◌-◌, ◌*◌, ◌/◌, ◌%◌, ◌^◌, ◌≤◌, ◌<◌, min, ◌≡◌, refl, sym, ap, ◌∙◌, ◌≡⟨◌⟩◌, ◌∎, ◌≢◌,
  ◌↔◌, ◌⊎◌, true, false, not, ◌&&◌, ◌||◌, Option, none, some, List, [], ◌∷◌, ◌++◌, arith, ◌==◌,
  if◌then◌else◌, length, set, take, find, filter, any, all, Bytes, get, bytes, decimal, hex_byte,
  join_with, secs, millis, Result, ok, err, ◌>>=◌, from_utf16_lossy, parse,
}
use fan_control_lian_li_wire.Discovery.Samples.{dongle_mac, mac_a, sample}
use fan_control_lian_li_wire.Discovery.Encode.{encode_device}
use fan_control_lian_li_wire.Frame.{
  frame_len, discovery_request, discovery_reply_len, pages_for, rf_frame, rf_frames,
}
use fan_control_lian_li_wire.Clock.{SystemTime}
use fan_control_lian_li_wire.Groups.{
  identity, shape, identity_eq, shape_eq, Group, new, online, bound_to, has_fans, acknowledged, due,
  settle_identity, settle_shape, note_heard, take_sighting,
}
use fan_control_lian_li_wire.Tracker.{Tracker, group, observe, fans, set_target, sent}
use fan_control_lian_li_wire.Engine.{dongle, GroupState, Snapshot, first_snapshot, want, text}
use fan_control_lian_li_wire.Dongle.{
  Port, reply, drain, gather_from, gather, write_frame, connect, poll_port, send_port, Usb, Dongle,
  poll, send,
}
use fan_control_lian_li_wire.Enumerate.{transmitter, receiver, missing, one}
use fan_control_lian_li_wire.Probe.Options.{SetOptions, run_arg, run_args, parse_run}
use fan_control_lian_li_wire.Probe.Arguments.{
  leaving, every, assigned, minutes, parse_run-command_line,
}
use fan_control_lian_li_wire.Probe.Resolve.{has_prefix, addresses, resolve, choose_in, choose}
use fan_control_lian_li_wire.Probe.Unique.{IsOnly, resolve_iff}
use fan_control_lian_li_wire.Probe.Session.{
  Time, Stop, Session, now, sleep, open_on, heartbeat, heard, send_target, send_if_due, exchange,
  apply_from, apply, hold_from, hold,
}
use fan_control_lian_li_wire.Probe.Waits.{IsClock}
use fan_control_lian_li_wire.Probe.Command.{
  Outside, drive_and_restore, set_device, set_in, World, polled, discover,
}
use fan_control_lian_li_wire.Discovery.{Device, parse_master, device_of, parse_device, parse_reply}
use fan_control_lian_li_wire.Probe.Restore.{heard_groups, restoring, set_in-Confirmed}
use fan_control_lian_li_wire.Process.{
  lconnect_service, Toolhelp, exe_name, walk_from, walk, names, running,
}
use fan_control_lian_li_wire.Probe.Confirm.{Confirmed, apply-Confirmed}
use fan_control_lian_li_wire.Probe.Run.{Running, typed_all}
use fan_control_lian_li_wire.Probe.Typed.{AsksAtMost, typed_all-AsksAtMost}
use fan_control_lian_li_wire.Probe.Exclusive.{IsUntouched, set-IsUntouched}
use fan_control_lian_li_wire.Probe.Command
use fan_control_lian_li_wire.Enumerate
use fan_control_lian_li_wire.Groups
use fan_control_lian_li_wire.Dongle
use fan_control_lian_li_wire.Speed

abbrev pub no_text : ℕ → Bytes
no_text code = []

parse_run-command_line_example :
    parse_run (
      bytes "--set"
      ∷ bytes "7C:9C=40"
      ∷ bytes "5"
      ∷ bytes "--every"
      ∷ bytes "2"
      ∷ bytes "--leave"
      ∷ [])
    ≡ ok (record {
      length = secs 300;
      every = secs 2;
      initial = (bytes "7c:9c", 40) ∷ [];
      leave = true;
    })
unfolding decimal
parse_run-command_line_example =
    parse_run-command_line (assigned (bytes "7C:9C") 40 ∷ minutes 5 ∷ every 2 ∷ leaving ∷ [])
      (omega arith, refl, (refl, omega arith, omega arith, (omega arith, omega arith, tt)))

-- So many minutes that their seconds wrap around to none.
wrapping_test :
    parse_run (bytes "4611686018427387904" ∷ [])
    ≡ ok (record { length = 0; every = secs 10; initial = []; leave = false })
unfolding parse_run run_args run_arg parse
wrapping_test = refl

abbrev shown : Bytes → GroupState
shown address = record {
  mac = address;
  receiver = 2;
  fan_count = 3;
  model = 43;
  online = true;
  rpm = 0 ∷ 0 ∷ 0 ∷ 0 ∷ [];
  duty = 0 ∷ 0 ∷ 0 ∷ 0 ∷ [];
  target = none;
  acknowledged = false;
  unacknowledged = 0;
}

abbrev two_groups : Snapshot
two_groups = record (first_snapshot dongle_mac 8) {
  groups = shown mac_a ∷ shown (1 ∷ 2 ∷ 3 ∷ 4 ∷ 5 ∷ 6 ∷ []) ∷ [];
}

resolve_iff_example :
    (resolve two_groups (bytes "7c") ≡ ok mac_a)
    ↔ IsOnly (has_prefix (bytes "7c")) (addresses two_groups) mac_a
resolve_iff_example = resolve_iff two_groups (bytes "7c") mac_a

-- A receiver that answers every request with the same frame, and a transmitter that takes all.
abbrev pub answering : Port
answering = record {
  Carrier = List Bytes;
  write = λ p frame wait. (ok frame_len, (0x10 ∷ 1 ∷ 0 ∷ 0 ∷ encode_device (sample mac_a)) ∷ []);
  read = λ p len wait. elim p [ [] ↦ (ok [], []) | got ∷ rest ↦ (ok got, rest) ];
}

abbrev noon : SystemTime
noon = record {
  year = 2026;
  month = 7;
  day_of_week = 3;
  day = 1;
  hour = 12;
  minute = 0;
  second = 0;
  milliseconds = 0;
}

-- A clock that moves with the sleeping only.
abbrev pub still : Time
still = record { World = ℕ; now = λ w. (w, w); local_time = λ w. (noon, w); sleep = λ w d. w + d }

pub still-IsClock : IsClock still
still-IsClock = record {
  reads = λ w. omega arith;
  dates = λ w. omega arith;
  sleeps = λ w d. omega arith;
}

abbrev on_answering : Dongle answering
on_answering = record {
  handles = some (record { tx = []; rx = [] });
  master = record { master_mac = dongle_mac; firmware = 1 };
  channel = 8;
  pages = 1;
}

abbrev pub begun : Session answering still
begun = open_on no_text answering still on_answering (secs 1) []

abbrev polled_once : Session answering still
polled_once = (fan_control_lian_li_wire.Probe.Session.poll no_text answering still begun).1

abbrev seven : SetOptions
seven = record { group = bytes "7c"; percent = 79; hold = secs 1 }

abbrev echoed : Result Stop (Unit {0}) × Session answering still
echoed = apply no_text answering still polled_once mac_a (201 ∷ 201 ∷ 201 ∷ 0 ∷ []) (bytes "echo")

apply_succeeds : echoed.0 ≡ ok tt
unfolding apply_from apply exchange heartbeat send_if_due send_target choose choose_in
    fan_control_lian_li_wire.Probe.Session.poll open_on Dongle.poll poll_port drain write_frame
    gather gather_from discovery_request discovery_reply_len encode_device parse_reply
    fan_control_lian_li_wire.Tracker.fans fan_control_lian_li_wire.Tracker.observe
    fan_control_lian_li_wire.Tracker.new fan_control_lian_li_wire.Discovery.parse_master
    fan_control_lian_li_wire.Discovery.parse_device Groups.online
    fan_control_lian_li_wire.Groups.new fan_control_lian_li_wire.Discovery.device_of
    fan_control_lian_li_wire.Groups.bound_to fan_control_lian_li_wire.Groups.has_fans
    fan_control_lian_li_wire.Probe.Text.mac fan_control_lian_li_wire.Base.join_with
    fan_control_lian_li_wire.Base.hex_byte fan_control_lian_li_wire.Tracker.set_target Dongle.send
    Dongle.send_port fan_control_lian_li_wire.Frame.rf_frames Groups.due
    fan_control_lian_li_wire.Frame.pages_for fan_control_lian_li_wire.Tracker.sent
    Groups.take_sighting Groups.note_heard Groups.acknowledged Groups.settle_shape Groups.shape_eq
    Groups.shape Groups.settle_identity Groups.identity_eq Groups.identity Speed.acknowledged
    Speed.prepare Speed.acknowledges Speed.differs Speed.min_duty
    fan_control_lian_li_wire.Tracker.group Speed.filters_duty Speed.is_cooler
    Speed.duty_from_percent
apply_succeeds = refl

set_succeeds : (set_in no_text answering still begun seven).0 ≡ ok tt
unfolding set_in set_device drive_and_restore hold hold_from
    fan_control_lian_li_wire.Engine.Drive.wanted_duties apply_from apply exchange heartbeat
    send_if_due send_target choose choose_in fan_control_lian_li_wire.Probe.Session.poll open_on
    Dongle.poll poll_port drain write_frame gather gather_from discovery_request discovery_reply_len
    encode_device parse_reply fan_control_lian_li_wire.Tracker.fans
    fan_control_lian_li_wire.Tracker.observe fan_control_lian_li_wire.Tracker.new
    fan_control_lian_li_wire.Discovery.parse_master fan_control_lian_li_wire.Discovery.parse_device
    Groups.online fan_control_lian_li_wire.Groups.new fan_control_lian_li_wire.Discovery.device_of
    fan_control_lian_li_wire.Groups.bound_to fan_control_lian_li_wire.Groups.has_fans
    fan_control_lian_li_wire.Probe.Text.mac fan_control_lian_li_wire.Base.join_with
    fan_control_lian_li_wire.Base.hex_byte fan_control_lian_li_wire.Tracker.set_target Dongle.send
    Dongle.send_port fan_control_lian_li_wire.Frame.rf_frames Groups.due
    fan_control_lian_li_wire.Frame.pages_for fan_control_lian_li_wire.Tracker.sent
    Groups.take_sighting Groups.note_heard Groups.acknowledged Groups.settle_shape Groups.shape_eq
    Groups.shape Groups.settle_identity Groups.identity_eq Groups.identity Speed.acknowledged
    Speed.prepare Speed.acknowledges Speed.differs Speed.min_duty
    fan_control_lian_li_wire.Tracker.group Speed.filters_duty Speed.is_cooler
    Speed.duty_from_percent
set_succeeds = refl

apply-Confirmed_example :
    (g : Group) × (group polled_once.tracker mac_a ≡ some g)
    × Confirmed mac_a (Speed.prepare g.device (201 ∷ 201 ∷ 201 ∷ 0 ∷ [])) echoed.1
apply-Confirmed_example =
    apply-Confirmed no_text answering still polled_once echoed.1 mac_a (201 ∷ 201 ∷ 201 ∷ 0 ∷ [])
      (bytes "echo") (ap (λ r. (r, echoed.1)) apply_succeeds)

abbrev restored : Session answering still
restored = (set_in no_text answering still begun seven).1

set_in-Confirmed_example :
    let s2 = heard_groups no_text answering still begun in
    (device : Device) × (choose s2.tracker (bytes "7c") ≡ ok device)
    × (g : Group) × (group (restoring no_text answering still s2 device seven).tracker device.mac
        ≡ some g)
    × Confirmed device.mac (Speed.prepare g.device device.duty) restored
set_in-Confirmed_example =
    set_in-Confirmed no_text answering still begun restored seven
      (ap (λ r. (r, restored)) set_succeeds)

abbrev watching : Running still
watching = record {
  shared = record { snapshot = two_groups; requests = []; stop = false };
  clocks = secs 1;
  printed = [];
}

abbrev typed_lines : List Bytes
typed_lines = bytes "7C 40 \n" ∷ bytes "7c 140" ∷ bytes "q" ∷ []

typed_all-AsksAtMost_example : AsksAtMost 3 watching (typed_all still watching typed_lines).1
typed_all-AsksAtMost_example = typed_all-AsksAtMost still watching typed_lines

-- A list of programs with the service alone, in small letters.
abbrev service_alone : Toolhelp
service_alone = record {
  World = Unit {0};
  Handle = Unit {0};
  create = λ w. (some tt, w);
  first = λ w h. (some (bytes "l-connect-service.exe" ++ (0 ∷ 0 ∷ [])), w);
  next = λ w h. (none, w);
  close = λ w h. w;
  last_error = λ w. 18;
}

-- Nothing is attached.
abbrev pub unplugged : Usb answering
unplugged = record {
  World = Unit {0};
  find = λ w. (err (Enumerate.missing transmitter), w);
  open_at = λ w path. (ok [], w);
  close = λ w device. w;
}

abbrev outside : Outside answering unplugged service_alone still
outside = record { dongles = tt; programs = tt; clocks = secs 1; printed = [] }

service_runs : (running service_alone 1 tt lconnect_service).0 ≡ some (ok true)
unfolding running names walk walk_from exe_name from_utf16_lossy
service_runs = refl

set-IsUntouched_example : IsUntouched no_text answering unplugged service_alone still 1 outside (
    Command.set no_text answering unplugged service_alone still 1
      (bytes "7c" ∷ bytes "40" ∷ [])
      outside)
set-IsUntouched_example =
    set-IsUntouched no_text answering unplugged service_alone still 1 (bytes "7c" ∷ bytes "40" ∷ [])
      outside (λ e. cc (sym service_runs ∙ e))
