-- ===== src/Ffi/Open.antt =====
-- src/ffi.rs, `lianli_open`, `lianli_close` and `lianli_last_error`. A panic that `guarded` catches
-- is not modelled. The engine's thread is the `Loop` that the call starts.
use fan_control_lian_li_wire.Base.{
  ℕ, Bool, true, false, Option, none, some, [], ◌++◌, ◌==◌, if◌then◌else◌, Bytes, bytes, Result, ok,
  err, ℤ, pos, negsuc,
}
use fan_control_lian_li_wire.Win.{WinError, win_error_text}
use fan_control_lian_li_wire.Process.{lconnect_service, Toolhelp, running}
use fan_control_lian_li_wire.Dongle.{Port, Error, error_text, connect, Usb, Dongle, open_with}
use fan_control_lian_li_wire.Engine.{text}
use fan_control_lian_li_wire.Engine.Host.{Shared, Loop, start}
use fan_control_lian_li_wire.Engine.Wire.{dongle_link}
use fan_control_lian_li_wire.Ffi.{success, err_argument, Handle, Outcome, refused, copy_out}
use fan_control_lian_li_wire.Dongle

abbrev pub err_dongle : ℤ
err_dongle = negsuc 1

abbrev pub err_lconnect : ℤ
err_lconnect = negsuc 2

abbrev pub err_windows : ℤ
err_windows = negsuc 5

abbrev pub lconnect_text : Bytes
lconnect_text = lconnect_service ++ bytes " is running and owns the dongle"

module _ (message : ℕ → Bytes) (port : Port) (usb : Usb port) (th : Toolhelp) where
  abbrev pub Worker : Type 0
  Worker = Loop message (dongle_link port usb)

  -- What `lianli_open` leaves: its code and error, the handle that it writes, the thread that it
  -- starts, and what is outside; the thread has the dongles once it runs.
  pub record Opening : Type 0 where
    pub outcome : Outcome
    pub worker : Option Worker
    pub dongles : usb.World
    pub programs : th.World

  abbrev pub fails : usb.World → th.World → ℤ → Bytes → Opening
  fails dongles programs code text = record {
    outcome = refused code none text;
    worker = none;
    dongles = dongles;
    programs = programs;
  }

  -- `Engine::open`, and the handle around the engine.
  unfoldable pub open_engine : usb.World → th.World → Opening
  unfolding dongle_link
  open_engine dongles programs =
      let (opened, dongles') = open_with port usb dongles none in
      elim opened [
        | err e ↦ fails dongles' programs err_dongle (Dongle.error_text message e)
        | ok d ↦
            let worker = start message (dongle_link port usb) (d, dongles') in
            record {
              outcome = record {
                code = success;
                handle = some (record { engine = some worker.shared; log = [] });
                error = none;
              };
              worker = some worker;
              dongles = dongles';
              programs = programs;
            }
      ]

  abbrev pub after_check : usb.World → Option (Result WinError Bool) × th.World → Option Opening
  after_check dongles (none, programs) = none
  after_check dongles (some (ok true), programs) =
      some (fails dongles programs err_lconnect lconnect_text)
  after_check dongles (some (ok false), programs) = some (open_engine dongles programs)
  after_check dongles (some (err e), programs) =
      some (fails dongles programs err_windows (win_error_text message e))

  -- The flag says that `out` is null; `rounds` are given to the walk over the programs, and there is
  -- nothing where they are too few.
  unfoldable pub lianli_open : ℕ → Bool → usb.World → th.World → Option Opening
  unfolding open_engine
  lianli_open rounds true dongles programs =
      some (fails dongles programs err_argument (bytes "open: out is null"))
  lianli_open rounds false dongles programs =
      after_check dongles (running th rounds programs lconnect_service)

-- The thread is told to stop, and the handle is freed.
unfoldable pub lianli_close : Option Handle → Outcome × Option Shared
lianli_close none = (refused err_argument none (bytes "close: handle is null"), none)
lianli_close (some h) = (
  record { code = success; handle = none; error = none },
  elim h.engine [ none ↦ none | some s ↦ some (record s { stop = true }) ],
)

-- The buffer is its length, where it is not null; what is written is part of the result.
unfoldable pub lianli_last_error : Bytes → Option ℕ → ℤ × Option Bytes
lianli_last_error text none = (err_argument, none)
lianli_last_error text (some len) =
    if len == 0
    then (err_argument, none)
    else (let (end, written) = copy_out text len in (pos end, some written))
