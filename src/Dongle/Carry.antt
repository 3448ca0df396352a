-- ===== src/Dongle/Carry.antt =====
-- src/dongle.rs, `send`: which frames reach the port.
use mathlib.Core.List.{append_assoc}
use fan_control_lian_li_wire.Base.{
  ℕ, ◌≡◌, refl, sym, ap, ◌∙◌, List, [], ◌∷◌, ◌++◌, append-nil, Bytes, ok,
}
use fan_control_lian_li_wire.Frame.{frame_len, rf_frames}
use fan_control_lian_li_wire.Dongle.{Port, write_frame, send_frames, send_port}
use fan_control_lian_li_wire.Device

-- A port that takes every frame whole, and the frames that it has taken.
pub record Takes (port : Port) (frames : port.Carrier → List Bytes) : Type 0 where
  pub whole : (p : port.Carrier) (f : Bytes) (wait : ℕ) → (port.write p f wait).0 ≡ ok frame_len
  pub kept :
      (p : port.Carrier) (f : Bytes) (wait : ℕ)
      → frames (port.write p f wait).1 ≡ frames p ++ (f ∷ [])

module _ (port : Port) (frames : port.Carrier → List Bytes) where
  send_frames_all :
      (p : port.Carrier) (fs : List Bytes)
      → Takes port frames
      → let r = send_frames port p fs in (r.0 ≡ ok tt) × (frames r.1 ≡ frames p ++ fs)
  unfolding send_frames write_frame
  send_frames_all p [] t = (refl, sym (append-nil (frames p)))
  send_frames_all p (f ∷ fs) t =
      let next = (port.write p f Device.timeout).1 in
      let ih = send_frames_all next fs t in
      rw (t.whole p f Device.timeout, send_frames, write_frame)
        (
          ih.0,
          ih.1
              ∙ ap (λ sent. sent ++ fs) (t.kept p f Device.timeout)
              ∙ append_assoc (frames p) (f ∷ []) fs,
        )

  -- On a port that takes every frame, `send` succeeds and leaves there exactly the four frames of
  -- the payload, in order, behind what was there.
  pub send_port-rf_frames :
      (p : port.Carrier) (channel to : ℕ) (payload : Bytes)
      → Takes port frames
      → let r = send_port port p channel to payload in
        (r.0 ≡ ok tt) × (frames r.1 ≡ frames p ++ rf_frames channel to payload)
  unfolding send_port
  send_port-rf_frames p channel to payload t = send_frames_all p (rf_frames channel to payload) t
