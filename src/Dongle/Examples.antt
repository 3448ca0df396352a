-- ===== src/Dongle/Examples.antt =====
-- src/dongle.rs at concrete inputs.
use fan_control_lian_li_wire.Base.{
  ℕ, ◌≤◌, ◌≡◌, refl, true, ◌&&◌, some, List, [], ◌∷◌, ◌++◌, arith, ◌==◌, if◌then◌else◌, length,
  replicate, any, Bytes, byte_at, ok, err,
}
use fan_control_lian_li_wire.Frame.{
  frame_len, ConnectReply, connect_request, parse_connect_reply, rf_frames,
}
use fan_control_lian_li_wire.Dongle.{
  connect_wait, Port, find_error, reply, closed, drain, gather_from, gather, write_frame, attempt,
  attempts_on, connect_with, connect, send_port, Usb, Dongle, open_with, reopen, poll, send_on,
  send,
}
use fan_control_lian_li_wire.Dongle.Answer.{IsAnswer, connect_with-IsAnswer}
use fan_control_lian_li_wire.Enumerate.{transmitter, missing}
use fan_control_lian_li_wire.Dongle.Gather.{got_of, gather_end}
use fan_control_lian_li_wire.Dongle.Carry.{Takes, send_port-rf_frames}
use fan_control_lian_li_wire.Dongle.Reopen.{reopen-closed}
use fan_control_lian_li_wire.Dongle
use fan_control_lian_li_wire.Enumerate

-- A port that takes every frame, keeps it, and answers each read with three bytes.
abbrev recorder : Port
recorder = record {
  Carrier = List Bytes;
  write = λ p f wait. (ok frame_len, p ++ (f ∷ []));
  read = λ p len wait. (ok (1 ∷ 2 ∷ 3 ∷ []), p);
}

abbrev taken : List Bytes → List Bytes
taken p = p

recorder-Takes : Takes recorder taken
recorder-Takes = record { whole = λ p f wait. refl; kept = λ p f wait. refl }

gather_end_example :
    (gather_from recorder 9 [] 7 [] 100 10 ≡ gather recorder [] 7 100 10)
    × (length (got_of (gather recorder [] 7 100 10)) ≤ 7)
gather_end_example = gather_end recorder 9 [] 7 100 10 (omega arith)

send_port-rf_frames_example :
    ((send_port recorder [] 8 2 (replicate 240 7)).0 ≡ ok tt)
    × ((send_port recorder [] 8 2 (replicate 240 7)).1 ≡ rf_frames 8 2 (replicate 240 7))
send_port-rf_frames_example =
    send_port-rf_frames recorder taken [] 8 2 (replicate 240 7) recorder-Takes

-- Nothing is attached.
abbrev unplugged : Usb recorder
unplugged = record {
  World = Unit {0};
  find = λ w. (err (Enumerate.missing transmitter), w);
  open_at = λ w path. (ok [], w);
  close = λ w device. w;
}

abbrev open_dongle : Dongle recorder
open_dongle = record {
  handles = some (record { tx = []; rx = [] });
  master = record { master_mac = 1 ∷ 2 ∷ 3 ∷ 4 ∷ 5 ∷ 6 ∷ []; firmware = 1 };
  channel = 8;
  pages = 1;
}

reopen-closed_example :
    let d' = (reopen recorder unplugged open_dongle tt true).1.0 in
    (Dongle.poll recorder d' ≡ (err closed, d'))
    × (Dongle.send_on recorder d' 8 2 [] ≡ (err closed, d'))
    × (d'.channel ≡ 8)
    × (d'.master ≡ open_dongle.master)
unfolding reopen open_with
reopen-closed_example =
    reopen-closed recorder unplugged open_dongle tt true
      (find_error (Enumerate.missing transmitter)) 8 2 [] refl

abbrev dongle_reply : Bytes
dongle_reply = 0x11 ∷ 0xbf ∷ 0x3d ∷ 0xca ∷ 0xe5 ∷ 0x66 ∷ 0xe4 ∷ 0 ∷ 0 ∷ 0 ∷ 2 ∷ 1 ∷ 6 ∷ []

abbrev dongle_said : ConnectReply
dongle_said = record { master_mac = 0xbf ∷ 0x3d ∷ 0xca ∷ 0xe5 ∷ 0x66 ∷ 0xe4 ∷ []; firmware = 0x106 }

-- A transmitter with nothing stale to read, that is on channel 9.
abbrev on_nine : Port
on_nine = record {
  Carrier = Bytes;
  write = λ p f wait. (ok frame_len, f);
  read =
      λ p len wait. (ok (if byte_at p 1 == 9 && wait == connect_wait then dongle_reply else []), p);
}

connect_with-IsAnswer_example :
    IsAnswer on_nine [] 9 dongle_said (connect_with on_nine [] ((8, 2) ∷ (9, 1) ∷ [])).1
    × (any (λ (e : ℕ × ℕ). e.0 == 9) ((8, 2) ∷ (9, 1) ∷ []) ≡ true)
unfolding connect_with attempts_on attempt drain write_frame connect_request parse_connect_reply
connect_with-IsAnswer_example =
    connect_with-IsAnswer on_nine [] ((8, 2) ∷ (9, 1) ∷ []) dongle_said 9 refl
