-- ===== src/Heartbeat/Layout.antt =====
-- src/heartbeat.rs, `block` and `payload`: what a receiver finds at which byte.
use fan_control_lian_li_wire.Base.{
  ℕ, ◌-◌, ◌≤◌, ◌≡◌, refl, true, false, [], ◌∷◌, ◌++◌, arith, length, drop, replicate, length-take,
  length-drop, Bytes, slice, u16_to_be_bytes, six_elements,
}
use fan_control_lian_li_wire.Heartbeat.{
  block_len, select, clock_sync, unset, Readings, Clock, block, payload,
}

-- The readings and the clock stand at their offsets, two bytes for a `u16`, and every other byte
-- of the 220 is zero.
pub block_lem :
    (r : Readings) (c : Clock)
    → (length (block r c) ≡ block_len)
      × (slice 0 8 (block r c)
          ≡ r.cpu_temp
            ∷ r.cpu_load
            ∷ r.gpu_temp
            ∷ r.gpu_load
            ∷ (u16_to_be_bytes r.cpu_mhz ++ u16_to_be_bytes r.gpu_mhz))
      × (slice 8 32 (block r c) ≡ replicate 24 0)
      × (slice 32 39 (block r c)
          ≡ u16_to_be_bytes c.year ++ (c.month ∷ c.day ∷ c.hour ∷ c.minute ∷ c.second ∷ []))
      × (drop 39 (block r c) ≡ replicate 181 0)
unfolding block
block_lem r c = (refl, refl, refl, refl, refl)

length-slice : (a b : ℕ) (bs : Bytes) → b ≤ length bs → length (slice a b bs) ≡ b - a
length-slice a b bs h = omega (arith, length-take (b - a) (drop a bs), length-drop a bs)

-- Every heartbeat but the first carries the whole block behind the dongle's address; the first one
-- carries only its bytes from 50 on, and says of those before that they are unset.
pub payload_lem :
    (master b : Bytes)
    → length master ≡ 6
    → length b ≡ block_len
    → (payload master b false
        ≡ select ∷ clock_sync ∷ (replicate 6 0 ++ (master ++ (b ++ replicate 6 0))))
      × (payload master b true
          ≡ select
            ∷ clock_sync
            ∷ (replicate 6 0
                ++ (master ++ (replicate 50 unset ++ (slice 50 block_len b ++ replicate 6 0)))))
unfolding payload
payload_lem master b hm hb =
    let (m0, m1, m2, m3, m4, m5, em) = six_elements master hm in
    let tail : length (slice 50 block_len b) ≡ 170 = length-slice 50 block_len b (omega arith) in
    rw (em, hb, tail) (refl, refl)

-- So the first heartbeat gives the receivers neither readings nor the time.
pub first_payload_hides :
    (master : Bytes) (r s : Readings) (c d : Clock)
    → payload master (block r c) true ≡ payload master (block s d) true
unfolding payload block
first_payload_hides master r s c d = refl
