-- ===== src/Probe/Restore.antt =====
-- src/bin/probe.rs, `set`: that it ends, and what a success leaves the group at.
use fan_control_lian_li_wire.Base.{
  ℕ, ◌≡◌, refl, ap, ap₂, sym, subst, ◌∙◌, some, inl, inr, ◌++◌, Bytes, bytes, decimal, Result, ok,
  err, ◌>>=◌, Result-cases, and_then,
}
use fan_control_lian_li_wire.Discovery.{Device}
use fan_control_lian_li_wire.Probe.Options.{SetOptions}
use fan_control_lian_li_wire.Probe.Resolve.{choose}
use fan_control_lian_li_wire.Groups.{Group}
use fan_control_lian_li_wire.Tracker.{group}
use fan_control_lian_li_wire.Dongle.{Port}
use fan_control_lian_li_wire.Engine.Drive.{wanted_duties}
use fan_control_lian_li_wire.Probe.Session.{
  Time, Stop, said, Session, say, now, heartbeat, apply, hold,
}
use fan_control_lian_li_wire.Probe.Waits.{Finishes}
use fan_control_lian_li_wire.Probe.Confirm.{Confirmed, apply-Confirmed}
use fan_control_lian_li_wire.Probe.Text.{describe}
use fan_control_lian_li_wire.Probe.Command.{
  master_line, drive_and_restore, set_device, chosen, set_in,
}
use fan_control_lian_li_wire.Speed

module _ {port : Port} {time : Time} where
  pub and_then-ends {ℓ} :
      {A B : Type ℓ} (a : Result Stop A × Session port time)
      (f : A → Session port time → Result Stop B × Session port time)
      → Finishes a
      → ((x : A) (s : Session port time) → Finishes (f x s))
      → Finishes (and_then a f)
  and_then-ends (ok x, s) f h k = k x s
  and_then-ends (err e, s) f h k = h

  pub and_then-ok {ℓ} :
      {A B : Type ℓ} (a : Result Stop A × Session port time)
      (f : A → Session port time → Result Stop B × Session port time) (b : B)
      (s' : Session port time)
      → and_then a f ≡ (ok b, s')
      → (x : A) × (s : Session port time) × (a ≡ (ok x, s)) × (f x s ≡ (ok b, s'))
  and_then-ok (ok x, s) f b s' h = (x, s, refl, h)
  and_then-ok (err e, s) f b s' h = absurd (cc (ap (λ r. r.0) h))

bind_second :
    (held restored : Result Stop (Unit {0}))
    → held >>= (λ done. restored) ≡ ok tt
    → restored ≡ ok tt
bind_second (ok done) restored h = h
bind_second (err e) restored h = cc

module _ (message : ℕ → Bytes) (port : Port) (time : Time) where
  -- The session when `set` has heard the groups, and when it begins to restore the group.
  abbrev pub heard_groups : Session port time → Session port time
  heard_groups s =
      let beaten =
        (heartbeat message port time (say (master_line message port time s.dongle) s)).1 in
      (fan_control_lian_li_wire.Probe.Session.poll message port time beaten).1

  abbrev pub restoring : Session port time → Device → SetOptions → Session port time
  restoring s device options =
      let echoed =
        (apply message port time (say (bytes "group " ++ describe device) s) device.mac device.duty
          (bytes "echo")).1 in
      let wanted = wanted_duties options.percent device.fan_count in
      let what = bytes "set " ++ decimal options.percent ++ bytes "%" in
      (and_then (apply message port time echoed device.mac wanted what)
        λ done s1. hold message port time s1 device.mac options.hold).1

  drive_and_restore-Confirmed :
      (s s' : Session port time) (device : Device) (options : SetOptions)
      → drive_and_restore message port time s device options ≡ (ok tt, s')
      → let wanted = wanted_duties options.percent device.fan_count in
        let what = bytes "set " ++ decimal options.percent ++ bytes "%" in
        let held =
          and_then
            (apply message port time s device.mac wanted what)
            λ done s1. hold message port time s1 device.mac options.hold in
        (g : Group) × (group held.1.tracker device.mac ≡ some g)
        × Confirmed device.mac (Speed.prepare g.device device.duty) s'
  unfolding drive_and_restore
  drive_and_restore-Confirmed s s' device options h =
      let wanted = wanted_duties options.percent device.fan_count in
      let what = bytes "set " ++ decimal options.percent ++ bytes "%" in
      let held =
        and_then (apply message port time s device.mac wanted what)
          λ done s1. hold message port time s1 device.mac options.hold in
      let restored = apply message port time held.1 device.mac device.duty (bytes "restore") in
      let result : restored.0 ≡ ok tt = bind_second held.0 restored.0 (ap (λ r. r.0) h) in
      let state : restored.1 ≡ s' = ap (λ r. r.1) h in
      let whole : restored ≡ (ok tt, s') = ap₂ (λ r x. (r, x)) result state in
      apply-Confirmed message port time held.1 s' device.mac device.duty (bytes "restore") whole

  set_device-Confirmed :
      (s s' : Session port time) (device : Device) (options : SetOptions)
      → set_device message port time s device options ≡ (ok tt, s')
      → (g : Group) × (group (restoring s device options).tracker device.mac ≡ some g)
        × Confirmed device.mac (Speed.prepare g.device device.duty) s'
  unfolding set_device
  set_device-Confirmed s s' device options h =
      let (done, s3, e3, h3) =
        and_then-ok
          (apply message port time (say (bytes "group " ++ describe device) s) device.mac
            device.duty (bytes "echo"))
          _ tt s' h in
      let echoed = ap (λ r. r.1) e3 in
      subst
        (λ (x : Session port time).
          let wanted = wanted_duties options.percent device.fan_count in
          let what = bytes "set " ++ decimal options.percent ++ bytes "%" in
          let held =
            and_then (apply message port time x device.mac wanted what)
              λ done s1. hold message port time s1 device.mac options.hold in
          (g : Group) × (group held.1.tracker device.mac ≡ some g)
          × Confirmed device.mac (Speed.prepare g.device device.duty) s')
        (sym echoed) (drive_and_restore-Confirmed s3 s' device options h3)

  -- Where `set` in a session succeeds, the prefix names one device among those that it heard, the
  -- group at the device's address is still known when the restore begins, and at the end that group
  -- has as its target what is then made of the duties that the device reported when it was chosen,
  -- and has acknowledged it.
  pub set_in-Confirmed :
      (s s' : Session port time) (options : SetOptions)
      → set_in message port time s options ≡ (ok tt, s')
      → let s2 = heard_groups s in
        (device : Device) × (choose s2.tracker options.group ≡ ok device)
        × (g : Group) × (group (restoring s2 device options).tracker device.mac ≡ some g)
        × Confirmed device.mac (Speed.prepare g.device device.duty) s'
  unfolding set_in
  set_in-Confirmed s s' options h =
      let (beat, s1, e1, h1) =
        and_then-ok (heartbeat message port time (say (master_line message port time s.dongle) s)) _
          tt s' h in
      let (seen, s2, e2, h2) =
        and_then-ok (fan_control_lian_li_wire.Probe.Session.poll message port time s1) _ tt s' h1 in
      let at : heard_groups s ≡ s2 =
        ap
          (λ (r : Result Stop (Unit {0}) × Session port time).
            (fan_control_lian_li_wire.Probe.Session.poll message port time r.1).1)
          e1
        ∙ ap (λ r. r.1) e2 in
      let whole : chosen message port time (heard_groups s) options
            (choose (heard_groups s).tracker options.group)
          ≡ (ok tt, s') =
        subst
          (λ (x : Session port time).
            chosen message port time x options (choose x.tracker options.group) ≡ (ok tt, s'))
          (sym at) h2 in
      elim (Result-cases (choose (heard_groups s).tracker options.group)) [
        | inr (why, e) ↦ absurd (cc (ap (λ r. r.0) (rw e at whole)))
        | inl (device, e) ↦
            let (g, known, confirmed) =
              set_device-Confirmed (heard_groups s) s' device options (rw e at whole) in
            (device, e, g, known, confirmed)
      ]
