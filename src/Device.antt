-- ===== src/Device.antt =====
-- src/device.rs: why a dongle does not open, and the transfers on one that is open. WinUSB is the
-- record `WinUsb`; opening and closing are in Device/Open.
pub mod Timeouts
pub mod Open
pub mod Closing
mod Examples
use fan_control_lian_li_wire.Base.{
  ℕ, suc, ◌+◌, ◌-◌, ◌*◌, ◌/◌, ◌%◌, ◌^◌, ◌≤◌, ◌<◌, max, ◌≡◌, ap, ◌∙◌, ◌≡⟨◌⟩◌, ◌∎, ◌≢◌, ◌↔◌, ◌⊎◌,
  Bool, false, not, ◌&&◌, ◌||◌, Option, none, some, [], ◌∷◌, ◌++◌, ltb, ◌==◌, if◌then◌else◌, set,
  all, Bytes, bytes, decimal, hex_byte, secs, millis, Result, ok, err, ◌>>=◌, and_then,
}
use fan_control_lian_li_wire.Win.{
  error_access_denied, error_sharing_violation, error_sem_timeout, WinError, win_error_text,
}

-- `pipe_type id kind`: `kind` is an `i32`, in two's complement.
pub data Error : Type 0 where
  in_use : WinError → Error
  windows : WinError → Error
  no_pipe : ℕ → Error
  pipe_type : ℕ → ℕ → Error

-- `{kind}` of an `i32`.
signed_text : ℕ → Bytes
signed_text n = if ltb n (2 ^ 31) then decimal n else bytes "-" ++ decimal (2 ^ 32 - n)

-- `Error::fmt`.
unfoldable pub error_text : (ℕ → Bytes) → Error → Bytes
unfolding signed_text
error_text message (in_use e) =
    bytes "another program has the device open ("
    ++ e.call
    ++ bytes " error "
    ++ decimal e.code
    ++ bytes ")"
error_text message (windows e) = win_error_text message e
error_text message (no_pipe id) = bytes "the device has no pipe 0x" ++ hex_byte id
error_text message (pipe_type id kind) =
    bytes "pipe 0x" ++ hex_byte id ++ bytes " has unusable transfer type " ++ signed_text kind

-- `From<WinError>`.
unfoldable pub from_win_error : WinError → Error
from_win_error e =
    if e.code == error_access_denied || e.code == error_sharing_violation
    then in_use e
    else windows e

abbrev pub out_pipe : ℕ
out_pipe = 0x01

abbrev pub in_pipe : ℕ
in_pipe = 0x81

abbrev pub timeout : ℕ
timeout = secs 5

abbrev to_millis : ℕ → ℕ
to_millis d = d / 1_000_000

-- `timeout_millis`, a `u32`.
unfoldable pub timeout_millis : ℕ → ℕ
timeout_millis d = max (if ltb (to_millis d) (2 ^ 32) then to_millis d else 2 ^ 32 - 1) 1

-- The WinUSB calls on an open interface. A read returns the bytes that arrived, or the error of
-- `GetLastError`.
pub record WinUsb : Type 1 where
  pub Interface : Type 0
  pub set_timeout : Interface → ℕ → ℕ → Result WinError (Unit {0}) × Interface
  pub write_pipe : Interface → Bytes → Result WinError ℕ × Interface
  pub read_pipe : Interface → ℕ → Result WinError Bytes × Interface

pub record Device (winusb : WinUsb) : Type 0 where
  pub interface : winusb.Interface
  pub read_timeout : Option ℕ
  pub write_timeout : Option ℕ

abbrev pub same_millis : Option ℕ → ℕ → Bool
same_millis none millis = false
same_millis (some cached) millis = cached == millis

module _ (winusb : WinUsb) where
  abbrev pub cached : Device winusb → ℕ → Option ℕ
  cached d pipe = if pipe == in_pipe then d.read_timeout else d.write_timeout

  abbrev remember : Device winusb → ℕ → ℕ → Device winusb
  remember d pipe millis =
      if pipe == in_pipe
      then record d { read_timeout = some millis }
      else record d { write_timeout = some millis }

  -- `*cached = Some(millis)` follows the call only where it succeeds.
  abbrev applied :
      Device winusb
      → ℕ
      → ℕ
      → Result WinError (Unit {0}) × winusb.Interface
      → Result WinError (Unit {0}) × Device winusb
  applied d pipe millis (ok done, i) = (ok tt, remember (record d { interface = i }) pipe millis)
  applied d pipe millis (err e, i) = (err e, record d { interface = i })

  unfoldable pub apply_timeout : Device winusb → ℕ → ℕ → Result WinError (Unit {0}) × Device winusb
  apply_timeout d pipe timeout' =
      let millis = timeout_millis timeout' in
      if same_millis (cached d pipe) millis
      then (ok tt, d)
      else applied d pipe millis (winusb.set_timeout d.interface pipe millis)

  abbrev on_interface {ℓ} :
      {A : Type ℓ}
      → Device winusb
      → Result WinError A × winusb.Interface
      → Result WinError A × Device winusb
  on_interface d (r, i) = (r, record d { interface = i })

  unfoldable pub write : Device winusb → Bytes → ℕ → Result WinError ℕ × Device winusb
  write d frame timeout' =
      and_then (apply_timeout d out_pipe timeout')
        λ done d'. on_interface d' (winusb.write_pipe d'.interface frame)

  -- A read that times out is an empty one.
  abbrev pub silence : Result WinError Bytes → Result WinError Bytes
  silence (ok got) = ok got
  silence (err e) = if e.code == error_sem_timeout then ok [] else err e

  unfoldable pub read : Device winusb → ℕ → ℕ → Result WinError Bytes × Device winusb
  read d len timeout' = and_then (apply_timeout d in_pipe timeout') λ done d'.
      let (r, d'') = on_interface d' (winusb.read_pipe d'.interface len) in (silence r, d'')
