-- ===== src/Device/Timeouts.antt =====
-- src/device.rs, `timeout_millis` and `apply_timeout`.
use fan_control_lian_li_wire.Device.{
  in_pipe, timeout_millis, WinUsb, Device, same_millis, cached, apply_timeout,
}
use fan_control_lian_li_wire.Base.{
  ℕ, ◌-◌, ◌/◌, ◌^◌, ◌≤◌, ◌<◌, min, max, ◌≡◌, refl, inl, inr, true, arith, ◌==◌, Bool-cases, ok,
  Result-cases,
}

-- A timeout is set as whole milliseconds, at least one and at most what a `u32` holds, and exactly
-- where it lies between.
pub timeout_millis_bounds :
    (d : ℕ)
    → (1 ≤ timeout_millis d)
      × (timeout_millis d < 2 ^ 32)
      × (timeout_millis d ≡ max 1 (min (d / 1_000_000) (2 ^ 32 - 1)))
unfolding timeout_millis
timeout_millis_bounds d = (ground arith, ground arith, ground arith)

same_refl : (n : ℕ) → (n == n) ≡ true
same_refl n = ground arith

module _ (winusb : WinUsb) where
  -- Once a timeout has been set on a pipe, setting the same again succeeds without a call, and
  -- leaves the device as it is.
  pub apply_timeout_twice :
      (d : Device winusb) (pipe wait : ℕ)
      → (apply_timeout winusb d pipe wait).0 ≡ ok tt
      → let d' = (apply_timeout winusb d pipe wait).1 in
        apply_timeout winusb d' pipe wait ≡ (ok tt, d')
  unfolding apply_timeout
  apply_timeout_twice d pipe wait h =
      elim (Bool-cases (same_millis (cached winusb d pipe) (timeout_millis wait))) [
        | inl e ↦ rw (e, apply_timeout, e)
        | inr e ↦
            elim (Result-cases (winusb.set_timeout d.interface pipe (timeout_millis wait)).0) [
              | inr (x, q) ↦ absurd (ground (arith, rw (e, q, apply_timeout) at h))
              | inl (a, q) ↦ elim (Bool-cases (pipe == in_pipe)) [
                | inl i ↦ rw (e, q, apply_timeout, i, same_refl (timeout_millis wait)) refl
                | inr o ↦ rw (e, q, apply_timeout, o, same_refl (timeout_millis wait)) refl
              ]
            ]
      ]
