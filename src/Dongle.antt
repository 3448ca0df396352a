-- ===== src/Dongle.antt =====
-- src/dongle.rs: the pair of dongles as one thing. A dongle that is open is a `Port`; finding and
-- opening them is Windows', the record `Usb`. Sleeping changes no state and is left out.
pub mod Gather
pub mod Carry
pub mod Reopen
pub mod Answer
mod Examples
use fan_control_lian_li_wire.Base.{
  ℕ, zero, suc, ◌+◌, ◌-◌, ◌*◌, ◌/◌, ◌%◌, ◌^◌, ◌≤◌, ◌<◌, min, max, ◌≡◌, ap, ◌∙◌, ◌≡⟨◌⟩◌, ◌∎, ◌≢◌,
  ◌↔◌, ◌⊎◌, Bool, ◌&&◌, ◌||◌, Option, none, some, List, [], ◌∷◌, ◌++◌, map, ◌==◌, if◌then◌else◌,
  length, take, any, Bytes, bytes, decimal, millis, Result, ok, err, ◌>>=◌, map_err, and_then,
  map_error,
}
use fan_control_lian_li_wire.Win.{WinError, win_error_text}
use fan_control_lian_li_wire.Frame.{
  frame_len, ConnectReply, connect_request, parse_connect_reply, channel_scan, connect_attempts,
  discovery_request, discovery_reply_len, pages_for, rf_frame, rf_frames,
}
use fan_control_lian_li_wire.Discovery.{short, Device, Reply, parse_reply}
use fan_control_lian_li_wire.Enumerate.{Role, transmitter, receiver, role_text, Dongles, one, pair}
use fan_control_lian_li_wire.Device
use fan_control_lian_li_wire.Discovery
use fan_control_lian_li_wire.Enumerate
use fan_control_lian_li_wire.Frame

abbrev pub connect_wait : ℕ
connect_wait = millis 500

abbrev pub reconnect_attempts : ℕ
reconnect_attempts = 3

abbrev pub reply_wait : ℕ
reply_wait = millis 100

abbrev pub reply_pause : ℕ
reply_pause = millis 10

abbrev pub flush_wait : ℕ
flush_wait = millis 5

-- `read` fills a buffer of the length it is given, and returns what it put there.
pub record Port : Type 1 where
  pub Carrier : Type 0
  pub write : Carrier → Bytes → ℕ → Result WinError ℕ × Carrier
  pub read : Carrier → ℕ → ℕ → Result WinError Bytes × Carrier

-- `impl Port for Device`.
unfoldable pub device_port : Device.WinUsb → Port
device_port winusb = record {
  Carrier = Device.Device winusb;
  write = Device.write winusb;
  read = Device.read winusb;
}

pub data Error : Type 0 where
  find_error : Enumerate.Error → Error
  open_error : Role → Device.Error → Error
  transfer : Role → WinError → Error
  no_master : Error
  short_write : Role → ℕ → Error
  reply : Discovery.Error → Error
  closed : Error

-- `Error::fmt`.
unfoldable pub error_text : (ℕ → Bytes) → Error → Bytes
error_text message (find_error e) = Enumerate.error_text message e
error_text message (open_error role e) =
    bytes "opening the " ++ role_text role ++ bytes ": " ++ Device.error_text message e
error_text message (transfer role e) = role_text role ++ bytes ": " ++ win_error_text message e
error_text message no_master = bytes "the transmitter answered on no channel"
error_text message (short_write role n) =
    role_text role
    ++ bytes " took "
    ++ decimal n
    ++ bytes " of "
    ++ decimal frame_len
    ++ bytes " bytes"
error_text message (reply e) = Discovery.error_text e
error_text message closed = bytes "the dongle is closed until it is reopened"

module _ (port : Port) where
  unfoldable pub drain : port.Carrier → ℕ → ℕ → Result WinError (Unit {0}) × port.Carrier
  drain p chunk_len zero = (ok tt, p)
  drain p chunk_len (suc max_reads) =
      and_then (port.read p chunk_len flush_wait)
        λ got p'. elim got [ [] ↦ (ok tt, p') | _ ∷ _ ↦ drain p' chunk_len max_reads ]

  -- The loop of `gather`: `got` is what stands in the buffer so far. A round that reads anything
  -- fills at least one byte of the `room` that is left.
  unfoldable pub gather_from :
      ℕ → port.Carrier → ℕ → Bytes → ℕ → ℕ → Result WinError Bytes × port.Carrier
  gather_from zero p room got wait pause = (ok got, p)
  gather_from (suc fuel) p zero got wait pause = (ok got, p)
  gather_from (suc fuel) p (suc room) got wait pause =
      and_then (port.read p frame_len wait) λ piece p'. elim piece [
        | [] ↦ (ok got, p')
        | b ∷ bs ↦
            let fits = take (min frame_len (suc room)) (b ∷ bs) in
            gather_from fuel p' (suc room - length fits) (got ++ fits) pause pause
      ]

  unfoldable pub gather : port.Carrier → ℕ → ℕ → ℕ → Result WinError Bytes × port.Carrier
  unfolding gather_from
  gather p len first pause = gather_from len p len [] first pause

  unfoldable pub write_frame : port.Carrier → Role → Bytes → Result Error (Unit {0}) × port.Carrier
  write_frame p role frame =
      and_then (map_error (transfer role) (port.write p frame Device.timeout))
        λ n p'. (if n == frame_len then ok tt else err (short_write role n), p')

  -- One attempt of `connect_with`.
  unfoldable pub attempt : port.Carrier → ℕ → Result Error (Option ConnectReply) × port.Carrier
  attempt p channel = and_then (map_error (transfer transmitter) (drain p frame_len 16)) λ done p1.
      and_then (write_frame p1 transmitter (connect_request channel)) λ done' p2.
        and_then (map_error (transfer transmitter) (port.read p2 frame_len connect_wait))
          λ got p3. (ok (parse_connect_reply got), p3)

  unfoldable pub attempts_on :
      port.Carrier → ℕ → ℕ → Result Error (Option ConnectReply) × port.Carrier
  attempts_on p channel zero = (ok none, p)
  attempts_on p channel (suc n) = and_then (attempt p channel) λ answer p'. elim answer [
    | none ↦ attempts_on p' channel n
    | some parsed ↦ (ok (some parsed), p')
  ]

  unfoldable pub connect_with :
      port.Carrier → List (ℕ × ℕ) → Result Error (ConnectReply × ℕ) × port.Carrier
  connect_with p [] = (err no_master, p)
  connect_with p ((channel, attempts) ∷ plan) =
      and_then (attempts_on p channel attempts) λ answer p'. elim answer [
        | none ↦ connect_with p' plan
        | some parsed ↦ (ok (parsed, channel), p')
      ]

  unfoldable pub connect : port.Carrier → Result Error (ConnectReply × ℕ) × port.Carrier
  unfolding connect_with
  connect p = connect_with p (map (λ c. (c, connect_attempts c)) channel_scan)

  unfoldable pub connect_on : port.Carrier → ℕ → Result Error (ConnectReply × ℕ) × port.Carrier
  unfolding connect_with
  connect_on p channel = connect_with p ((channel, reconnect_attempts) ∷ [])

  unfoldable pub poll_port : port.Carrier → ℕ → Result Error Reply × port.Carrier
  unfolding drain write_frame gather
  poll_port p pages = and_then (map_error (transfer receiver) (drain p 512 64)) λ done p1.
      and_then (write_frame p1 receiver (discovery_request pages)) λ done' p2.
        and_then
          (map_error (transfer receiver)
            (gather p2 (discovery_reply_len pages) reply_wait reply_pause))
          λ got p3. (map_err reply (parse_reply got pages), p3)

  -- The loop of `send`.
  unfoldable pub send_frames : port.Carrier → List Bytes → Result Error (Unit {0}) × port.Carrier
  unfolding write_frame
  send_frames p [] = (ok tt, p)
  send_frames p (chunk ∷ rest) =
      and_then (write_frame p transmitter chunk) λ done p'. send_frames p' rest

  unfoldable pub send_port : port.Carrier → ℕ → ℕ → Bytes → Result Error (Unit {0}) × port.Carrier
  unfolding send_frames
  send_port p channel to payload = send_frames p (rf_frames channel to payload)

-- What Windows offers: listing the dongles, opening one at a path, and closing it, when a device is
-- dropped. `World` is everything outside of the program.
pub record Usb (port : Port) : Type 1 where
  pub World : Type 0
  pub find : World → Result Enumerate.Error Dongles × World
  pub open_at : World → Bytes → Result Device.Error port.Carrier × World
  pub close : World → port.Carrier → World

pub record Handles (port : Port) : Type 0 where
  pub tx : port.Carrier
  pub rx : port.Carrier

pub record Dongle (port : Port) : Type 0 where
  pub handles : Option (Handles port)
  pub master : ConnectReply
  pub channel : ℕ
  pub pages : ℕ

module _ (port : Port) (usb : Usb port) where
  -- `connect_on` or `connect`, by the channel that `open_with` is given.
  abbrev connect_to : port.Carrier → Option ℕ → Result Error (ConnectReply × ℕ) × port.Carrier
  connect_to tx none = connect port tx
  connect_to tx (some channel) = connect_on port tx channel

  -- Where no channel answers, both are dropped, the receiver first, which was opened last.
  abbrev pub opened :
      usb.World
      → port.Carrier
      → Result Error (ConnectReply × ℕ) × port.Carrier
      → Result Error (Dongle port) × usb.World
  opened w rx (err e, tx) = (err e, usb.close (usb.close w rx) tx)
  opened w rx (ok (master, channel), tx) = (
    ok (record {
      handles = some (record { tx = tx; rx = rx });
      master = master;
      channel = channel;
      pages = 1;
    }),
    w,
  )

  -- The transmitter is dropped where the receiver does not open.
  abbrev pub opened_receiver :
      Option ℕ
      → port.Carrier
      → Result Error port.Carrier × usb.World
      → Result Error (Dongle port) × usb.World
  opened_receiver channel tx (err e, w) = (err e, usb.close w tx)
  opened_receiver channel tx (ok rx, w) = opened w rx (connect_to tx channel)

  unfoldable pub open_with : usb.World → Option ℕ → Result Error (Dongle port) × usb.World
  open_with w channel = and_then (map_error find_error (usb.find w)) λ paths w1.
      and_then (map_error (open_error transmitter) (usb.open_at w1 paths.transmitter)) λ tx w2.
        opened_receiver channel tx (map_error (open_error receiver) (usb.open_at w2 paths.receiver))

  -- `self.handles = None`: the fields are dropped in their order.
  abbrev pub close_handles : Option (Handles port) → usb.World → usb.World
  close_handles none w = w
  close_handles (some h) w = usb.close (usb.close w h.tx) h.rx

  abbrev reopened :
      Dongle port
      → Result Error (Dongle port) × usb.World
      → Result Error (Unit {0}) × (Dongle port × usb.World)
  reopened d (ok fresh, w) = (ok tt, (fresh, w))
  reopened d (err e, w) = (err e, (record d { handles = none }, w))

  unfoldable pub reopen :
      Dongle port → usb.World → Bool → Result Error (Unit {0}) × (Dongle port × usb.World)
  reopen d w every_channel =
      reopened d
        (open_with (close_handles d.handles w) (if every_channel then none else some d.channel))

module _ (port : Port) where
  abbrev polled :
      Dongle port
      → Handles port
      → Result Error Reply × port.Carrier
      → Result Error Reply × Dongle port
  polled d h (ok r, rx) =
      (ok r, record d { handles = some (record h { rx = rx }); pages = pages_for r.reported })
  polled d h (err e, rx) = (err e, record d { handles = some (record h { rx = rx }) })

  unfoldable pub poll : Dongle port → Result Error Reply × Dongle port
  poll d = elim d.handles [
    | none ↦ (err closed, d)
    | some h ↦ polled d h (poll_port port h.rx d.pages)
  ]

  abbrev carried :
      Dongle port
      → Handles port
      → Result Error (Unit {0}) × port.Carrier
      → Result Error (Unit {0}) × Dongle port
  carried d h (r, tx) = (r, record d { handles = some (record h { tx = tx }) })

  unfoldable pub send_on : Dongle port → ℕ → ℕ → Bytes → Result Error (Unit {0}) × Dongle port
  send_on d channel to payload = elim d.handles [
    | none ↦ (err closed, d)
    | some h ↦ carried d h (send_port port h.tx channel to payload)
  ]

  -- `Dongle::send`.
  unfoldable pub send : Dongle port → ℕ → Bytes → Result Error (Unit {0}) × Dongle port
  unfolding send_on
  send d to payload = send_on d d.channel to payload
