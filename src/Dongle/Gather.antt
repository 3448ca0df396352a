-- ===== src/Dongle/Gather.antt =====
-- src/dongle.rs, `gather`: a reply that arrives in pieces.
use fan_control_lian_li_wire.Base.{
  ℕ, zero, suc, ◌+◌, ◌-◌, ◌≤◌, min, ◌≡◌, refl, inl, inr, [], ◌∷◌, ◌++◌, arith, length, take,
  length-append, length-take, Bytes, Result, ok, err, Result-cases,
}
use fan_control_lian_li_wire.Frame.{frame_len}
use fan_control_lian_li_wire.Win.{WinError}
use fan_control_lian_li_wire.Dongle.{Port, gather_from, gather}

-- The bytes of a result, none if it failed.
abbrev pub got_of : {S : Type 0} → Result WinError Bytes × S → Bytes
got_of (ok got, s) = got
got_of (err e, s) = []

-- What one read adds: something, and no more than there is room for.
piece_fits :
    (room b : ℕ) (bs : Bytes)
    → (1 ≤ length (take (min frame_len (suc room)) (b ∷ bs)))
      × (length (take (min frame_len (suc room)) (b ∷ bs)) ≤ suc room)
piece_fits room b bs =
    let n = length-take (min frame_len (suc room)) (b ∷ bs) in (omega (arith, n), omega (arith, n))

module _ (port : Port) where
  same_end :
      (f1 f2 : ℕ) (p : port.Carrier) (room : ℕ) (got : Bytes) (wait pause : ℕ)
      → room ≤ f1
      → room ≤ f2
      → gather_from port f1 p room got wait pause ≡ gather_from port f2 p room got wait pause
  unfolding gather_from
  same_end zero zero p room got wait pause h k = refl
  same_end zero (suc f2) p zero got wait pause h k = refl
  same_end zero (suc f2) p (suc room) got wait pause h k = absurd (omega (arith, h))
  same_end (suc f1) zero p zero got wait pause h k = refl
  same_end (suc f1) zero p (suc room) got wait pause h k = absurd (omega (arith, k))
  same_end (suc f1) (suc f2) p zero got wait pause h k = refl
  same_end (suc f1) (suc f2) p (suc room) got wait pause h k =
      let read = port.read p frame_len wait in
      elim (Result-cases read.0) [
        | inr (e, q) ↦ rw (q, gather_from)
        | inl ([], q) ↦ rw (q, gather_from)
        | inl (b ∷ bs, q) ↦
            let fits = take (min frame_len (suc room)) (b ∷ bs) in
            let n = (piece_fits room b bs).0 in
            rw (q, gather_from)
              (same_end f1 f2 read.1 (suc room - length fits) (got ++ fits) pause pause
                (omega (arith, n, h)) (omega (arith, n, k)))
      ]

  length_bound :
      (fuel : ℕ) (p : port.Carrier) (room : ℕ) (got : Bytes) (wait pause : ℕ)
      → length (got_of (gather_from port fuel p room got wait pause)) ≤ length got + room
  unfolding gather_from
  length_bound zero p room got wait pause = omega arith
  length_bound (suc fuel) p zero got wait pause = omega arith
  length_bound (suc fuel) p (suc room) got wait pause =
      let read = port.read p frame_len wait in
      elim (Result-cases read.0) [
        | inr (e, q) ↦ rw (q, gather_from) (omega arith)
        | inl ([], q) ↦ rw (q, gather_from) (omega arith)
        | inl (b ∷ bs, q) ↦
            let fits = take (min frame_len (suc room)) (b ∷ bs) in
            let n = (piece_fits room b bs).1 in
            let ih = length_bound fuel read.1 (suc room - length fits) (got ++ fits) pause pause in
            rw (q, gather_from) (omega (arith, ih, n, length-append got fits))
      ]

  -- The loop of `gather` ends by itself, on whatever the port answers: one round for each byte of
  -- the buffer is always enough, and more rounds change nothing. What it gathers fits the buffer.
  pub gather_end :
      (fuel : ℕ) (p : port.Carrier) (len first pause : ℕ)
      → len ≤ fuel
      → (gather_from port fuel p len [] first pause ≡ gather port p len first pause)
        × (length (got_of (gather port p len first pause)) ≤ len)
  unfolding gather
  gather_end fuel p len first pause h = (
    same_end fuel len p len [] first pause h (omega arith),
    omega (arith, length_bound len p len [] first pause),
  )
