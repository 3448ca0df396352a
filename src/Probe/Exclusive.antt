-- ===== src/Probe/Exclusive.antt =====
-- src/bin/probe.rs: a dongle that L-Connect holds is not touched.
use fan_control_lian_li_wire.Base.{
  ℕ, ◌≡◌, refl, sym, ◌∙◌, ◌≢◌, inl, inr, Bool, true, false, Option, none, some, List, Bytes, Result,
  ok, err, Result-cases,
}
use fan_control_lian_li_wire.Process.{lconnect_service, Toolhelp, running}
use fan_control_lian_li_wire.Dongle.{Port, Usb}
use fan_control_lian_li_wire.Probe.Session.{Time, Stop, said, unfinished}
use fan_control_lian_li_wire.Probe.Command.{
  Outside, lconnect_runs, World, refusal, refuse_if_lconnect_runs, discover,
}
use fan_control_lian_li_wire.Probe.Options.{DiscoverOptions, parse_discover, parse_set}
use fan_control_lian_li_wire.Win.{WinError, win_error_text}
use fan_control_lian_li_wire.Probe.Command

module _ (message : ℕ → Bytes) (port : Port) (usb : Usb port) (th : Toolhelp) (time : Time)
    (rounds : ℕ) where
  -- The dongles and the clocks are as they were, nothing was printed, and there is an error.
  pub record IsUntouched (w : Outside port usb th time)
      (a : Result Stop (Unit {0}) × Outside port usb th time) : Type 0 where
    pub dongles : a.1.dongles ≡ w.dongles
    pub clocks : a.1.clocks ≡ w.clocks
    pub printed : a.1.printed ≡ w.printed
    pub fails : a.0 ≢ ok tt

  -- Where the list of programs cannot be read to its end, or has the service, there is an error.
  refusal_err :
      (answer : Option (Result WinError Bool))
      → answer ≢ some (ok false)
      → (why : Stop) × (refusal message port usb th time rounds answer ≡ err why)
  refusal_err none h = (unfinished, refl)
  refusal_err (some (err x)) h = (said (win_error_text message x), refl)
  refusal_err (some (ok true)) h = (said lconnect_runs, refl)
  refusal_err (some (ok false)) h = absurd (h refl)

  not_ok : (why : Stop) (r : Result Stop (Unit {0})) → r ≡ err why → r ≢ ok tt
  not_ok why r e f = cc (sym e ∙ f)

  stopped-IsUntouched :
      (w : Outside port usb th time) (programs : th.World) (why : Stop)
      → IsUntouched w (err why, record w { programs = programs })
  stopped-IsUntouched w programs why = record {
    dongles = refl;
    clocks = refl;
    printed = refl;
    fails = not_ok why _ refl;
  }

  abbrev answered_of : Outside port usb th time → Option (Result WinError Bool)
  answered_of w = (running th rounds w.programs lconnect_service).0

  -- Unless the whole list of programs was read and L-Connect's service is not in it, `set` fails with
  -- whatever arguments, touches neither the dongles nor the clocks and prints nothing.
  pub set-IsUntouched :
      (args : List Bytes) (w : Outside port usb th time)
      → (running th rounds w.programs lconnect_service).0 ≢ some (ok false)
      → IsUntouched w (Command.set message port usb th time rounds args w)
  unfolding Command.set refuse_if_lconnect_runs
  set-IsUntouched args w h =
      let programs = (running th rounds w.programs lconnect_service).1 in
      elim (Result-cases (parse_set args)) [
        | inr (why, e) ↦ rw (e, Command.set) (stopped-IsUntouched w w.programs (said why))
        | inl (o, e) ↦
            let (why, f) = refusal_err (answered_of w) h in
            rw (e, Command.set, f) (stopped-IsUntouched w programs why)
      ]

  -- The same of `discover` without `--share`.
  pub discover-IsUntouched :
      (args : List Bytes) (w : Outside port usb th time) (o : DiscoverOptions)
      → parse_discover args ≡ ok o
      → o.share ≡ false
      → (running th rounds w.programs lconnect_service).0 ≢ some (ok false)
      → IsUntouched w (discover message port usb th time rounds args w)
  unfolding discover refuse_if_lconnect_runs
  discover-IsUntouched args w o e share h =
      let programs = (running th rounds w.programs lconnect_service).1 in
      let (why, f) = refusal_err (answered_of w) h in
      rw (e, discover, share, f) (stopped-IsUntouched w programs _)
