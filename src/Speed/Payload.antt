-- ===== src/Speed/Payload.antt =====
-- src/speed.rs, `payload`: where a receiver finds the command's parts.
use fan_control_lian_li_wire.Base.{
  ℕ, ◌≡◌, refl, ◌∷◌, ◌++◌, length, replicate, Bytes, four_elements, six_elements,
}
use fan_control_lian_li_wire.Frame.{rf_payload_len}
use fan_control_lian_li_wire.Discovery.{fans_per_group, Device}
use fan_control_lian_li_wire.Speed.{select, pwm, payload, slot}

-- The command is 240 bytes: its two codes, the addresses of the group and the dongle, receiver
-- type, channel and slot, the four duties, and zeros.
pub payload_lem :
    (d : Device) (master : Bytes) (channel slot : ℕ) (duty : Bytes)
    → length d.mac ≡ 6
    → length master ≡ 6
    → length duty ≡ fans_per_group
    → (payload d master channel slot duty
        ≡ select
          ∷ pwm
          ∷ (d.mac ++ (master ++ (d.receiver ∷ channel ∷ slot ∷ (duty ++ replicate 219 0)))))
      × (length (payload d master channel slot duty) ≡ rf_payload_len)
unfolding payload
payload_lem d master channel slot duty hm hn hd =
    let (m0, m1, m2, m3, m4, m5, em) = six_elements d.mac hm in
    let (n0, n1, n2, n3, n4, n5, en) = six_elements master hn in
    let (d0, d1, d2, d3, ed) = four_elements duty hd in rw (em, en, ed) (refl, refl)
