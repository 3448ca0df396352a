-- ===== src/Dongle/Reopen.antt =====
-- src/dongle.rs, `reopen`: a reopen that fails.
use fan_control_lian_li_wire.Base.{
  ℕ, ◌≡◌, refl, inl, inr, Bool, none, some, arith, if◌then◌else◌, Bytes, err, Result-cases,
}
use fan_control_lian_li_wire.Dongle.{
  Port, closed, Usb, Dongle, open_with, close_handles, reopen, poll, send_on, send,
}
use fan_control_lian_li_wire.Dongle

module _ (port : Port) (usb : Usb port) where
  -- A reopen that fails leaves the dongle closed, on the channel it was on: every later poll and
  -- every send reports that, without touching a port, and changes nothing.
  pub reopen-closed :
      (d : Dongle port) (w : usb.World) (every_channel : Bool) (e : Dongle.Error) (channel to : ℕ)
      (payload : Bytes)
      → (reopen port usb d w every_channel).0 ≡ err e
      → let d' = (reopen port usb d w every_channel).1.0 in
        (Dongle.poll port d' ≡ (err closed, d'))
        × (Dongle.send_on port d' channel to payload ≡ (err closed, d'))
        × (d'.channel ≡ d.channel)
        × (d'.master ≡ d.master)
  unfolding reopen Dongle.poll Dongle.send_on
  reopen-closed d w every_channel e channel to payload h =
      elim (Result-cases
        (open_with port usb (close_handles port usb d.handles w)
          (if every_channel then none else some d.channel)).0) [
            | inl (fresh, q) ↦ absurd (ground (arith, rw (q, reopen) at h))
            | inr (x, q) ↦ rw (q, reopen) (refl, refl, refl, refl)
          ]
