-- ===== src/Probe/RunExamples.antt =====
-- src/bin/probe.rs, `run`, at concrete inputs: a run without the service, and groups put back.
use fan_control_lian_li_wire.Base.{
  ℕ, suc, ◌+◌, ◌-◌, ◌*◌, ◌/◌, ◌%◌, ◌^◌, ◌≤◌, ◌<◌, min, ◌≡◌, refl, ap, ◌≡⟨◌⟩◌, ◌∎, ◌≢◌, ◌↔◌, ◌⊎◌,
  true, not, ◌&&◌, ◌||◌, Option, none, some, List, [], ◌∷◌, ◌++◌, ◌==◌, if◌then◌else◌, length, set,
  take, find, filter, any, all, Bytes, get, bytes, decimal, hex_byte, join_with, secs, millis,
  Result, ok, err, ◌>>=◌, parse,
}
use fan_control_lian_li_wire.Discovery.Samples.{mac_a}
use fan_control_lian_li_wire.Discovery.Encode.{encode_device}
use fan_control_lian_li_wire.Frame.{
  frame_len, discovery_request, discovery_reply_len, pages_for, rf_frame, rf_frames,
}
use fan_control_lian_li_wire.Groups.{
  identity, shape, identity_eq, shape_eq, Group, new, online, bound_to, has_fans, acknowledged, due,
  settle_identity, settle_shape, note_heard, take_sighting,
}
use fan_control_lian_li_wire.Tracker.{Tracker, group, observe, fans, set_target, sent}
use fan_control_lian_li_wire.Dongle.{
  Port, reply, drain, gather_from, gather, write_frame, connect, poll_port, send_port, Usb, Dongle,
  poll, send,
}
use fan_control_lian_li_wire.Probe.Resolve.{choose_in, choose}
use fan_control_lian_li_wire.Probe.Session.{
  Time, Stop, Session, now, sleep, open_on, heartbeat, heard, send_target, send_if_due, exchange,
  apply_from, apply, hold_from, hold,
}
use fan_control_lian_li_wire.Probe.Command.{Outside}
use fan_control_lian_li_wire.Discovery.{Device, parse_master, device_of, parse_device, parse_reply}
use fan_control_lian_li_wire.Process.{Toolhelp}
use fan_control_lian_li_wire.Groups
use fan_control_lian_li_wire.Dongle
use fan_control_lian_li_wire.Speed
use fan_control_lian_li_wire.Probe.Loops.{Beside}
use fan_control_lian_li_wire.Probe.PutBack.{ArePutBack, heard_once, put_back-ArePutBack}
use fan_control_lian_li_wire.Probe.Run.{put_back, confirm_all}
use fan_control_lian_li_wire.Probe.Examples.{no_text, answering, still, begun}
use fan_control_lian_li_wire.Engine.Host.{Shared}
use fan_control_lian_li_wire.Probe.Command.{Outside}

-- An engine that ticks during the first sleep, and nobody types.
abbrev ticking : Shared → Shared
ticking shared = record shared { snapshot = record shared.snapshot { ticks = 1 } }

-- Both dongles are attached.
abbrev plugged : Usb answering
plugged = record {
  World = Unit {0};
  find = λ w. (ok (record { transmitter = bytes "tx"; receiver = bytes "rx" }), w);
  open_at = λ w path. (ok [], w);
  close = λ w device. w;
}

abbrev engine : Beside answering plugged still
engine = record {
  Threads = Unit {0};
  spawn = λ d w. tt;
  sleep = λ threads shared w d. (threads, ticking shared, w + d);
  take_lines = λ threads. ([], threads);
  join = λ threads shared w. (tt, w);
}

-- A list of programs with another one alone.
abbrev editor_alone : Toolhelp
editor_alone = record {
  World = Unit {0};
  Handle = Unit {0};
  create = λ w. (some tt, w);
  first = λ w h. (some (bytes "notepad.exe" ++ (0 ∷ 0 ∷ [])), w);
  next = λ w h. (none, w);
  close = λ w h. w;
  last_error = λ w. 18;
}

abbrev ready : Outside answering plugged editor_alone still
ready = record { dongles = tt; programs = tt; clocks = secs 1; printed = [] }

abbrev started_at : List (Bytes × Bytes)
started_at = (mac_a, 201 ∷ 201 ∷ 201 ∷ 0 ∷ []) ∷ []

abbrev ended : Session answering still
ended = (put_back no_text answering still begun started_at).1

put_back_succeeds : (put_back no_text answering still begun started_at).0 ≡ ok tt
unfolding put_back confirm_all apply_from apply exchange heartbeat send_if_due send_target choose
    choose_in fan_control_lian_li_wire.Probe.Session.poll open_on Dongle.poll poll_port drain
    write_frame gather gather_from discovery_request discovery_reply_len encode_device parse_reply
    fan_control_lian_li_wire.Tracker.fans fan_control_lian_li_wire.Tracker.observe
    fan_control_lian_li_wire.Tracker.new fan_control_lian_li_wire.Discovery.parse_master
    fan_control_lian_li_wire.Discovery.parse_device Groups.online
    fan_control_lian_li_wire.Groups.new fan_control_lian_li_wire.Discovery.device_of
    fan_control_lian_li_wire.Groups.bound_to fan_control_lian_li_wire.Groups.has_fans
    fan_control_lian_li_wire.Probe.Text.mac fan_control_lian_li_wire.Base.join_with
    fan_control_lian_li_wire.Base.hex_byte fan_control_lian_li_wire.Tracker.set_target Dongle.send
    Dongle.send_port fan_control_lian_li_wire.Frame.rf_frames Groups.due
    fan_control_lian_li_wire.Frame.pages_for fan_control_lian_li_wire.Tracker.sent
    Groups.take_sighting Groups.note_heard Groups.acknowledged Groups.settle_shape Groups.shape_eq
    Groups.shape Groups.settle_identity Groups.identity_eq Groups.identity Speed.acknowledged
    Speed.prepare Speed.acknowledges Speed.differs Speed.min_duty
    fan_control_lian_li_wire.Tracker.group Speed.filters_duty Speed.is_cooler
    Speed.duty_from_percent
put_back_succeeds = refl

put_back-ArePutBack_example :
    ArePutBack no_text answering still
      (heard_once no_text answering still begun)
      started_at
      ended.tracker
put_back-ArePutBack_example =
    put_back-ArePutBack no_text answering still begun ended started_at (tt, tt)
      (ap (λ r. (r, ended)) put_back_succeeds)
