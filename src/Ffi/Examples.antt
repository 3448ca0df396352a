-- ===== src/Ffi/Examples.antt =====
-- src/ffi.rs at concrete inputs.
use fan_control_lian_li_wire.Dongle.{
  connect_wait, connect, connect_with, attempts_on, attempt, drain, write_frame, Dongle,
}
use fan_control_lian_li_wire.Frame.{frame_len, connect_request, parse_connect_reply}
use fan_control_lian_li_wire.Process.{lconnect_service}
use fan_control_lian_li_wire.Ffi.Opened.{Hinders}
use fan_control_lian_li_wire.Base.{
  sym, ◌∙◌, inl, inr, if◌then◌else◌, ◌==◌, ℕ, ◌≤◌, ◌<◌, ◌≡◌, refl, ◌↔◌, true, false, none, some, [],
  ◌∷◌, ◌++◌, arith, length, get_elem?, take, drop, Bytes, bytes, ok, from_utf16_lossy,
}
use fan_control_lian_li_wire.Ffi.{Group, state_of, is_char_boundary, boundary_from, copy_out}
use fan_control_lian_li_wire.Ffi.Open.{Opening, lianli_open}
use fan_control_lian_li_wire.Ffi.Opened.{IsEither, lianli_open_lem}
use fan_control_lian_li_wire.Ffi.Reported.{Says, state_of-Says}
use fan_control_lian_li_wire.Engine.{GroupState, Snapshot, first_snapshot, is_some}
use fan_control_lian_li_wire.Process.{Toolhelp, exe_name, walk_from, walk, names, running}
use fan_control_lian_li_wire.Dongle.{Port, Usb, Dongle, open_with}
use fan_control_lian_li_wire.Ffi.Copy.{copy_out_lem}
use fan_control_lian_li_wire.Ffi.Log.{kept, kept_lem}

-- Two characters of two bytes each, and what of them fits in a buffer of four bytes.
abbrev two_characters : Bytes
two_characters = 0xc3 ∷ 0xa9 ∷ 0xc3 ∷ 0xa9 ∷ []

abbrev one_character : Bytes
one_character = 0xc3 ∷ 0xa9 ∷ 0 ∷ []

copy_out_lem_example :
    (2 < 4)
    × (2 ≤ 4)
    × (is_char_boundary two_characters 2 ≡ true)
    × (2 ≤ 2)
    × (one_character ≡ take 2 two_characters ++ (0 ∷ []))
unfolding copy_out is_char_boundary boundary_from
copy_out_lem_example = copy_out_lem two_characters 4 2 (omega arith) (omega arith) refl

kept_lem_example : kept [] (bytes "a" ∷ bytes "b" ∷ []) ≡ drop 0 (bytes "a" ∷ bytes "b" ∷ [])
kept_lem_example = kept_lem (bytes "a" ∷ bytes "b" ∷ [])

abbrev no_text : ℕ → Bytes
no_text code = []

-- A port that takes every frame and answers a connect request, and a computer with both dongles.
abbrev answering : Port
answering = record {
  Carrier = Unit {0};
  write = λ p frame wait. (ok frame_len, p);
  read = λ p len wait. (
    ok (
        if wait == connect_wait
        then 0x11 ∷ 0xbf ∷ 0x3d ∷ 0xca ∷ 0xe5 ∷ 0x66 ∷ 0xe4 ∷ 0 ∷ 0 ∷ 0 ∷ 2 ∷ 1 ∷ 6 ∷ []
        else []),
    p,
  );
}

abbrev plugged : Usb answering
plugged = record {
  World = Unit {0};
  find = λ w. (ok (record { transmitter = bytes "tx"; receiver = bytes "rx" }), w);
  open_at = λ w path. (ok tt, w);
  close = λ w device. w;
}

-- One program runs, which is not L-Connect's service.
abbrev one_program : Toolhelp
one_program = record {
  World = Unit {0};
  Handle = Unit {0};
  create = λ w. (some tt, w);
  first = λ w h. (some (bytes "notepad.exe" ++ (0 ∷ [])), w);
  next = λ w h. (none, w);
  close = λ w h. w;
  last_error = λ w. 18;
}

reads_programs : (running one_program 1 tt lconnect_service).0 ≡ some (ok false)
unfolding running names walk walk_from exe_name from_utf16_lossy
reads_programs = refl

opens_dongles : (d : Dongle answering) × ((open_with answering plugged tt none).0 ≡ ok d)
unfolding open_with connect connect_with attempts_on attempt drain write_frame connect_request
    parse_connect_reply fan_control_lian_li_wire.Frame.channel_scan
    fan_control_lian_li_wire.Frame.connect_attempts
opens_dongles = (_, refl)

lianli_open_lem_example :
    (o : Opening no_text answering plugged one_program) × (lianli_open no_text answering plugged
        one_program 1 false tt tt
      ≡ some o)
    × IsEither no_text answering plugged one_program false tt tt 1 o
lianli_open_lem_example =
    lianli_open_lem no_text answering plugged one_program 1 false tt tt
      (λ e. cc (sym reads_programs ∙ e))

-- And it is the first of the two: nothing is in the way.
not_hindered : ¬ Hinders no_text answering plugged one_program false tt tt 1
not_hindered (inl null) = cc null
not_hindered (inr (inl listed)) = listed reads_programs
not_hindered (inr (inr (e, failed))) = cc (sym opens_dongles.1 ∙ failed)

abbrev group_a : GroupState
group_a = record {
  mac = 1 ∷ 2 ∷ 3 ∷ 4 ∷ 5 ∷ 6 ∷ [];
  receiver = 2;
  fan_count = 3;
  model = 43;
  online = true;
  rpm = 900 ∷ 901 ∷ 902 ∷ 0 ∷ [];
  duty = 77 ∷ 77 ∷ 77 ∷ 0 ∷ [];
  target = some (77 ∷ 77 ∷ 77 ∷ 0 ∷ []);
  acknowledged = true;
  unacknowledged = 0;
}

abbrev snapshot_a : Snapshot
snapshot_a = record (first_snapshot (1 ∷ 1 ∷ 1 ∷ 1 ∷ 1 ∷ 1 ∷ []) 8) { groups = group_a ∷ [] }

state_of-Says_example :
    ((out : Group) × (get_elem? (state_of snapshot_a).groups 0 ≡ some out) × Says out group_a)
    × (0 < (state_of snapshot_a).group_count)
    × (length (state_of snapshot_a).groups ≡ 16)
    × (((state_of snapshot_a).alarm ≡ 1) ↔ (is_some snapshot_a.alarm ≡ true))
state_of-Says_example = state_of-Says snapshot_a 0 group_a (omega arith) refl
