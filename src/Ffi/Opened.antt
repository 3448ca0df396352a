-- ===== src/Ffi/Opened.antt =====
-- src/ffi.rs, `lianli_open`: what holds of every outcome.
use fan_control_lian_li_wire.Base.{
  sym, ap, ◌∙◌, ◌≢◌, ℕ, ◌≡◌, refl, ◌⊎◌, inl, inr, Bool, true, false, Option, none, some, [], Bytes,
  bytes, Result, ok, err, Result-cases, negsuc,
}
use fan_control_lian_li_wire.Win.{WinError, win_error_text}
use fan_control_lian_li_wire.Process.{lconnect_service, Toolhelp, running}
use fan_control_lian_li_wire.Dongle.{Port, Error, error_text, connect, Usb, Dongle, open_with}
use fan_control_lian_li_wire.Engine.Host.{start}
use fan_control_lian_li_wire.Engine.Wire.{dongle_link}
use fan_control_lian_li_wire.Ffi.{success, err_argument}
use fan_control_lian_li_wire.Ffi.Open.{
  err_lconnect, err_windows, lconnect_text, Worker, Opening, fails, open_engine, after_check,
  lianli_open,
}
use fan_control_lian_li_wire.Dongle

module _ (message : ℕ → Bytes) (port : Port) (usb : Usb port) (th : Toolhelp) where
  -- A thread runs, and the handle shares its state; no error is left.
  pub record IsOpened (o : Opening message port usb th) : Type 0 where
    pub worker : Worker message port usb th
    pub runs : o.worker ≡ some worker
    pub code : o.outcome.code ≡ success
    pub error : o.outcome.error ≡ none
    pub handle : o.outcome.handle ≡ some (record { engine = some worker.shared; log = [] })

  -- No thread runs and no handle is written; the code is one of those of the calls that fail, and an
  -- error is left.
  pub record IsRefused (o : Opening message port usb th) : Type 0 where
    pub code : ℕ
    pub text : Bytes
    pub negative : o.outcome.code ≡ negsuc code
    pub error : o.outcome.error ≡ some text
    pub handle : o.outcome.handle ≡ none
    pub worker : o.worker ≡ none

  fails-IsRefused :
      (dongles : usb.World) (programs : th.World) (n : ℕ) (text : Bytes)
      → IsRefused (fails message port usb th dongles programs (negsuc n) text)
  fails-IsRefused dongles programs n text = record {
    code = n;
    text = text;
    negative = refl;
    error = refl;
    handle = refl;
    worker = refl;
  }

  -- Why nothing is opened: `out` is null, the list of programs could not be read or has the service,
  -- or the dongles do not open.
  abbrev pub Hinders : Bool → usb.World → th.World → ℕ → Type 0
  Hinders null dongles programs rounds =
      (null ≡ true)
      ⊎ (((running th rounds programs lconnect_service).0 ≢ some (ok false))
          ⊎ ((e : Dongle.Error) × ((open_with port usb dongles none).0 ≡ err e)))

  -- The dongles opened, the service is not in the list that was read, and a thread runs; or something
  -- was in the way, and nothing runs.
  abbrev pub IsEither : Bool → usb.World → th.World → ℕ → Opening message port usb th → Type 0
  IsEither null dongles programs rounds o =
      ((null ≡ false)
        × ((running th rounds programs lconnect_service).0 ≡ some (ok false))
        × ((d : Dongle port) × ((open_with port usb dongles none).0 ≡ ok d))
        × IsOpened o)
      ⊎ (Hinders null dongles programs rounds × IsRefused o)

  open_engine-IsEither :
      (rounds : ℕ) (dongles : usb.World) (programs programs' : th.World)
      → (running th rounds programs lconnect_service).0 ≡ some (ok false)
      → IsEither false dongles programs rounds (open_engine message port usb th dongles programs')
  unfolding open_engine dongle_link
  open_engine-IsEither rounds dongles programs programs' free =
      elim (Result-cases (open_with port usb dongles none).0) [
        | inl (d, e) ↦
            let worker =
              start message (dongle_link port usb) (d, (open_with port usb dongles none).1) in
            rw (e, open_engine)
              (inl (
                refl,
                free,
                (d, refl),
                record { worker = worker; runs = refl; code = refl; error = refl; handle = refl },
              ))
        | inr (x, e) ↦
            rw (e, open_engine)
              (inr (
                inr (inr (x, refl)),
                fails-IsRefused (open_with port usb dongles none).1 programs' 1
                    (Dongle.error_text message x),
              ))
      ]

  after_check-IsEither :
      (rounds : ℕ) (dongles : usb.World) (programs : th.World)
      (answer : Option (Result WinError Bool) × th.World)
      → answer ≡ running th rounds programs lconnect_service
      → answer.0 ≢ none
      → (o : Opening message port usb th) × (after_check message port usb th dongles answer
          ≡ some o)
        × IsEither false dongles programs rounds o
  after_check-IsEither rounds dongles programs (none, programs') e walked = absurd (walked refl)
  after_check-IsEither rounds dongles programs (some (ok true), programs') e walked = (
    fails message port usb th dongles programs' err_lconnect lconnect_text,
    refl,
    inr (
      inr (inl λ free. cc (ap (λ a. a.0) e ∙ free)),
      fails-IsRefused dongles programs' 2 lconnect_text,
    ),
  )
  after_check-IsEither rounds dongles programs (some (ok false), programs') e walked = (
    open_engine message port usb th dongles programs',
    refl,
    open_engine-IsEither rounds dongles programs programs' (sym (ap (λ a. a.0) e)),
  )
  after_check-IsEither rounds dongles programs (some (err why), programs') e walked = (
    fails message port usb th dongles programs' err_windows (win_error_text message why),
    refl,
    inr (
      inr (inl λ free. cc (ap (λ a. a.0) e ∙ free)),
      fails-IsRefused dongles programs' 5 (win_error_text message why),
    ),
  )

  -- Where the walk over the programs is given enough rounds, `lianli_open` has an outcome. Either
  -- `out` is not null, the whole list of programs was read without L-Connect's service in it and the
  -- dongles opened: then a thread runs, and with the code for success a handle is written that
  -- shares its state. Or one of these is not so: then no thread runs, no handle is written, the code
  -- is negative and an error is left.
  pub lianli_open_lem :
      (rounds : ℕ) (null : Bool) (dongles : usb.World) (programs : th.World)
      → (running th rounds programs lconnect_service).0 ≢ none
      → (o : Opening message port usb th) × (lianli_open message port usb th rounds null dongles
            programs
          ≡ some o)
        × IsEither null dongles programs rounds o
  unfolding lianli_open
  lianli_open_lem rounds true dongles programs walked = (
    fails message port usb th dongles programs err_argument (bytes "open: out is null"),
    refl,
    inr (inl refl, fails-IsRefused dongles programs 0 (bytes "open: out is null")),
  )
  lianli_open_lem rounds false dongles programs walked =
      after_check-IsEither rounds dongles programs (running th rounds programs lconnect_service)
        refl walked
