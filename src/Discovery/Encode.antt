-- ===== src/Discovery/Encode.antt =====
-- src/discovery.rs: the layout of a device record, written as an encoder.

use fan_control_lian_li_wire.Discovery.Records.{IsDevice, parse_device-eq-some}
use fan_control_lian_li_wire.Base.{
  ℕ, ◌+◌, ◌/◌, ◌%◌, ◌≤◌, ◌<◌, bit_and, ◌≡◌, refl, sym, ap, subst, ◌∙◌, Bool, true, false, not, ◌&&◌,
  some, List, [], ◌∷◌, ◌++◌, arith, ◌==◌, if◌then◌else◌, tabulate, tabulated, length, All, Bytes,
  byte_at, slice, u16_from_be_bytes, four_elements, six_elements,
}
use fan_control_lian_li_wire.Discovery.{
  record_len, marker, Device, fan_shape, rpm_at, device_of, parse_device,
}

abbrev flag : Bool → ℕ → ℕ
flag true n = n
flag false n = 0

-- The speeds, two bytes each; the first byte carries the two flags of the receiver.
abbrev encode_rpm : Bool → Bool → List ℕ → Bytes
encode_rpm pwm sync [] = []
encode_rpm pwm sync (r ∷ rs) =
    (r / 256 + flag pwm 0x20 + flag sync 0x40) ∷ r % 256 ∷ encode_rpm false false rs

abbrev raw_count : ℕ → Bool → ℕ
raw_count fans right = if right then fans + 10 else fans

-- The 42 bytes of a device record.
unfoldable pub encode_device : Device → Bytes
encode_device d =
    d.mac
    ++ (d.master_mac
        ++ (d.channel
            ∷ d.receiver
            ∷ 0
            ∷ 0
            ∷ 0
            ∷ 0
            ∷ d.device_type
            ∷ raw_count d.fan_count d.right_attach
            ∷ (d.effect
                ++ (d.fan_types
                    ++ (encode_rpm d.pwm_line d.light_sync d.rpm
                        ++ (d.duty ++ (d.sequence ∷ marker ∷ [])))))))

-- The three masks of the first speed byte, for its high nibble `x`.
abbrev masks : Bool → Bool → ℕ → Bool
masks pwm sync x =
    let b = x + flag pwm 0x20 + flag sync 0x40 in
    bit_and b 0x0f == x && bit_and b 0x20 == flag pwm 0x20 && bit_and b 0x40 == flag sync 0x40

masks_table : (pwm sync : Bool) → tabulate (masks pwm sync) 16 ≡ true
unfolding tabulate
masks_table true true = refl
masks_table true false = refl
masks_table false true = refl
masks_table false false = refl

record Masked (pwm sync : Bool) (x : ℕ) : Type 0 where
  pub low : bit_and (x + flag pwm 0x20 + flag sync 0x40) 0x0f ≡ x
  pub pwm_bit : not (bit_and (x + flag pwm 0x20 + flag sync 0x40) 0x20 == 0) ≡ pwm
  pub sync_bit : not (bit_and (x + flag pwm 0x20 + flag sync 0x40) 0x40 == 0) ≡ sync

masks_lem : (pwm sync : Bool) (x : ℕ) → x < 16 → Masked pwm sync x
masks_lem pwm sync x h = ground (arith, tabulated (masks pwm sync) 16 (masks_table pwm sync) x h)

fan_shape-raw_count :
    (fans : ℕ) (right : Bool) → fans ≤ 4 → fan_shape (raw_count fans right) ≡ (fans, right)
unfolding fan_shape
fan_shape-raw_count fans right h = ground arith

byte_of : (r : ℕ) → r < 4096 → u16_from_be_bytes (r / 256) (r % 256) ≡ r
byte_of r h = omega arith

low_false : (x : ℕ) → x < 16 → bit_and (x + 0 + 0) 0x0f ≡ x
low_false x h = (masks_lem false false x h).low

module _ (mac master effect types duty : Bytes) (rpm : List ℕ)
    (channel receiver kind fans sequence : ℕ) (right pwm sync : Bool) where
  abbrev made : Device
  made = record {
    mac = mac;
    master_mac = master;
    channel = channel;
    receiver = receiver;
    device_type = kind;
    fan_count = fans;
    right_attach = right;
    effect = effect;
    fan_types = types;
    rpm = rpm;
    duty = duty;
    sequence = sequence;
    pwm_line = pwm;
    light_sync = sync;
  }

  -- The fields are read back from the bytes that were laid out.
  device_of-encode : IsDevice made → device_of (encode_device made) mac ≡ made
  unfolding device_of rpm_at encode_device
  device_of-encode h =
      let (m0, m1, m2, m3, m4, m5, em) = six_elements mac h.mac_len in
      let (n0, n1, n2, n3, n4, n5, en) = six_elements master h.master_len in
      let (f0, f1, f2, f3, ef) = four_elements effect h.effect_len in
      let (t0, t1, t2, t3, et) = four_elements types h.types_len in
      let (r0, r1, r2, r3, er) = four_elements rpm h.rpm_len in
      let (d0, d1, d2, d3, ed) = four_elements duty h.duty_len in
      let small : All (λ r. r < 4096) (r0 ∷ r1 ∷ r2 ∷ r3 ∷ []) =
        subst (All (λ r. r < 4096)) er h.rpm_small in
      let masked = masks_lem pwm sync (r0 / 256) (omega arith) in
      rw (em, en, ef, et, er, ed)
        (rw (
          fan_shape-raw_count fans right h.few_fans,
          masked.low,
          masked.pwm_bit,
          masked.sync_bit,
          low_false (r1 / 256) (omega arith),
          low_false (r2 / 256) (omega arith),
          low_false (r3 / 256) (omega arith),
          byte_of r0 small.0,
          byte_of r1 small.1.0,
          byte_of r2 small.1.1.0,
          byte_of r3 small.1.1.1.0,
        ))

  -- The layout: 42 bytes that begin with the address and end with the marker.
  abbrev Laid : Type 0
  Laid =
      (length (encode_device made) ≡ record_len)
      × (slice 0 6 (encode_device made) ≡ mac)
      × (byte_at (encode_device made) 18 ≡ kind)
      × (byte_at (encode_device made) 41 ≡ marker)

  encode_device-Laid : IsDevice made → Laid
  unfolding encode_device
  encode_device-Laid h =
      let (m0, m1, m2, m3, m4, m5, em) = six_elements mac h.mac_len in
      let (n0, n1, n2, n3, n4, n5, en) = six_elements master h.master_len in
      let (f0, f1, f2, f3, ef) = four_elements effect h.effect_len in
      let (t0, t1, t2, t3, et) = four_elements types h.types_len in
      let (r0, r1, r2, r3, er) = four_elements rpm h.rpm_len in
      let (d0, d1, d2, d3, ed) = four_elements duty h.duty_len in
      rw (em, en, ef, et, er, ed) (refl, refl, refl, refl)

  round_trip : IsDevice made → parse_device (encode_device made) ≡ some made
  round_trip h =
      let (sized, address, kinded, marked) = encode_device-Laid h in
      parse_device-eq-some (encode_device made) (omega arith) (λ e. h.mac_set (sym address ∙ e))
        (λ e. h.not_master (sym kinded ∙ e)) marked
      ∙ ap some (rw address (device_of-encode h))

-- A device in range is read back, whole, from the record that is laid out for it.
pub parse_device-encode_device : (d : Device) → IsDevice d → parse_device (encode_device d) ≡ some d
parse_device-encode_device d h =
    round_trip d.mac d.master_mac d.effect d.fan_types d.duty d.rpm d.channel d.receiver
      d.device_type d.fan_count d.sequence d.right_attach d.pwm_line d.light_sync h
