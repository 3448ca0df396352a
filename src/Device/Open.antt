-- ===== src/Device/Open.antt =====
-- src/device.rs: opening and closing a dongle. The calls are Windows', the record `Setup` over the
-- interfaces that `WinUsb` transfers on.
use fan_control_lian_li_wire.Base.{
  ℕ, zero, suc, ◌+◌, Bool, Option, none, some, List, [], ◌∷◌, ◌++◌, ◌==◌, if◌then◌else◌, find,
  Bytes, bytes, Result, ok, err, ◌>>=◌, ok_or, and_then, map_error,
}
use fan_control_lian_li_wire.Win.{WinError}
use fan_control_lian_li_wire.Device.{
  Error, no_pipe, pipe_type, from_win_error, out_pipe, in_pipe, timeout, WinUsb, Device, write,
  read,
}
use fan_control_lian_li_wire.Device

abbrev pub usbd_pipe_type_bulk : ℕ
usbd_pipe_type_bulk = 2

abbrev pub usbd_pipe_type_interrupt : ℕ
usbd_pipe_type_interrupt = 3

abbrev pub auto_clear_stall : ℕ
auto_clear_stall = 0x02

abbrev pub allow_partial_reads : ℕ
allow_partial_reads = 0x05

pub data Transfer : Type 0 where
  bulk interrupt : Transfer

pub record Pipe : Type 0 where
  pub id : ℕ
  pub transfer : Transfer
  pub max_packet : ℕ

-- `WINUSB_PIPE_INFORMATION`, without the interval; the type is an `i32`, in two's complement.
pub record PipeInformation : Type 0 where
  pub kind : ℕ
  pub pipe_id : ℕ
  pub maximum_packet_size : ℕ

-- A call that gives `none` or `false` has failed, and `last_error` has its code.
pub record Setup (winusb : WinUsb) : Type 1 where
  pub World : Type 0
  pub File : Type 0
  pub get : World → Result WinError (Unit {0}) × World  -- `WinUsb::get`
  pub create_file : World → Bytes → Option File × World
  pub initialize : World → File → Option winusb.Interface × World
  pub query_settings : World → winusb.Interface → Option ℕ × World
  pub query_pipe : World → winusb.Interface → ℕ → Option PipeInformation × World
  pub set_pipe_policy : World → winusb.Interface → ℕ → ℕ → ℕ → Bool × World
  pub free : World → winusb.Interface → World
  pub close_handle : World → File → World
  pub last_error : World → ℕ

module _ (winusb : WinUsb) (setup : Setup winusb) where
  -- A device, with the fields that the transfers do not use.
  pub record Opened : Type 0 where
    pub file : setup.File
    pub out_pipe' : Pipe
    pub in_pipe' : Pipe
    pub device : Device.Device winusb

  abbrev pub last : Bytes → setup.World → Error
  last call w = from_win_error (record { call = call; code = setup.last_error w })

  unfoldable pub transfer_of : PipeInformation → Result Error Transfer
  transfer_of info =
      if info.kind == usbd_pipe_type_bulk
      then ok bulk
      else if info.kind == usbd_pipe_type_interrupt
      then ok interrupt
      else err (pipe_type info.pipe_id info.kind)

  abbrev described : PipeInformation → Transfer → Pipe
  described info transfer = record {
    id = info.pipe_id;
    transfer = transfer;
    max_packet = info.maximum_packet_size;
  }

  -- The loop of `pipes`: `count` endpoints are left from `index` on.
  unfoldable pub pipes_from :
      ℕ → ℕ → setup.World → winusb.Interface → List Pipe → Result Error (List Pipe) × setup.World
  unfolding transfer_of
  pipes_from zero index w i pipes = (ok pipes, w)
  pipes_from (suc count) index w i pipes =
      let (answer, w') = setup.query_pipe w i index in
      elim answer [
        | none ↦ (err (last (bytes "WinUsb_QueryPipe") w'), w')
        | some info ↦ elim (transfer_of info) [
          | err e ↦ (err e, w')
          | ok transfer ↦
              pipes_from count (index + 1) w' i (pipes ++ (described info transfer ∷ []))
        ]
      ]

  unfoldable pub pipes : setup.World → winusb.Interface → Result Error (List Pipe) × setup.World
  unfolding pipes_from
  pipes w i =
      let (answer, w') = setup.query_settings w i in
      elim answer [
        | none ↦ (err (last (bytes "WinUsb_QueryInterfaceSettings") w'), w')
        | some count ↦ pipes_from count 0 w' i []
      ]

  unfoldable pub set_policy :
      setup.World → winusb.Interface → ℕ → ℕ → ℕ → Result Error (Unit {0}) × setup.World
  set_policy w i pipe policy value =
      let (done, w') = setup.set_pipe_policy w i pipe policy value in
      (if done then ok tt else err (last (bytes "WinUsb_SetPipePolicy") w'), w')

  abbrev pipe_with : ℕ → List Pipe → Result Error Pipe
  pipe_with id pipes = ok_or (no_pipe id) (find (λ p. p.id == id) pipes)

  abbrev pub opened_with : setup.File → winusb.Interface → Pipe → Pipe → Opened
  opened_with file i out into = record {
    file = file;
    out_pipe' = out;
    in_pipe' = into;
    device = record { interface = i; read_timeout = none; write_timeout = none };
  }

  -- The policies, once both pipes are found.
  unfoldable pub set_policies :
      setup.World → setup.File → winusb.Interface → Pipe × Pipe → Result Error Opened × setup.World
  unfolding set_policy
  set_policies w file i (out, into) =
      and_then (set_policy w i in_pipe auto_clear_stall 1) λ done w1.
        and_then (set_policy w1 i in_pipe allow_partial_reads 1)
          λ done' w2. (ok (opened_with file i out into), w2)

  abbrev pub both_pipes : List Pipe → Result Error (Pipe × Pipe)
  both_pipes found =
      pipe_with out_pipe found >>= λ out. pipe_with in_pipe found >>= λ into. ok (out, into)

  -- What `open` does with the interface.
  unfoldable pub configure :
      setup.World → setup.File → winusb.Interface → Result Error Opened × setup.World
  unfolding pipes set_policies
  configure w file i =
      and_then (pipes w i)
        λ found w1. and_then (both_pipes found, w1) λ both w2. set_policies w2 file i both

  -- `drop`.
  abbrev pub release : setup.World → setup.File → winusb.Interface → setup.World
  release w file i = setup.close_handle (setup.free w i) file

  -- A device that is not returned is dropped.
  abbrev pub kept_or_dropped :
      setup.File
      → winusb.Interface
      → Result Error Opened × setup.World
      → Result Error Opened × setup.World
  kept_or_dropped file i (ok d, w) = (ok d, w)
  kept_or_dropped file i (err e, w) = (err e, release w file i)

  unfoldable pub open_file : setup.World → setup.File → Result Error Opened × setup.World
  unfolding configure
  open_file w file =
      let (answer, w') = setup.initialize w file in
      elim answer [
        | none ↦ (err (last (bytes "WinUsb_Initialize") w'), setup.close_handle w' file)
        | some i ↦ kept_or_dropped file i (configure w' file i)
      ]

  -- `Device::open`.
  unfoldable pub open_device : setup.World → Bytes → Result Error Opened × setup.World
  unfolding open_file
  open_device w path = and_then (map_error from_win_error (setup.get w)) λ done w1.
      let (answer, w2) = setup.create_file w1 path in
      elim answer [
        | none ↦ (err (last (bytes "CreateFileW") w2), w2)
        | some file ↦ open_file w2 file
      ]

  unfoldable pub drop_device : setup.World → Opened → setup.World
  drop_device w d = release w d.file d.device.interface
