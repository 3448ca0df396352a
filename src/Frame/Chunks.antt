-- ===== src/Frame/Chunks.antt =====
-- src/frame.rs, `rf_frames`: the frames of a payload.
use fan_control_lian_li_wire.Base.{
  ℕ, zero, suc, ◌+◌, ◌-◌, ◌*◌, ◌%◌, ◌≤◌, ◌<◌, ◌≡◌, refl, sym, ap, ◌∙◌, List, [], ◌∷◌, ◌++◌,
  append-nil, arith, length, take, drop, length-take, length-drop, take-append-drop, Bytes, slice,
  eq-nil,
}
use fan_control_lian_li_wire.Frame.{frame_len, rf_payload_len, send_rf, rf_frame, rf_frames}

-- What the transmitter puts back together: the frames' bodies, in order.
abbrev pub reassemble : List Bytes → Bytes
reassemble [] = []
reassemble (f ∷ fs) = drop 4 f ++ reassemble fs

-- The header of frame `index`, and 64 bytes in all.
pub record IsChunk (channel receiver index : ℕ) (f : Bytes) : Type 0 where
  pub sized : length f ≡ frame_len
  pub header : take 4 f ≡ send_rf ∷ index ∷ channel ∷ receiver ∷ []

length-slice : (a b : ℕ) (xs : Bytes) → b ≤ length xs → length (slice a b xs) ≡ b - a
length-slice a b xs h = omega (arith, length-take (b - a) (drop a xs), length-drop a xs)

rf_frame_lem :
    (channel receiver index : ℕ) (p : Bytes)
    → index < 4
    → length p ≡ rf_payload_len
    → rf_frame channel receiver p index
      ≡ send_rf ∷ index ∷ channel ∷ receiver ∷ slice (index * 60) (index * 60 + 60) p
unfolding rf_frame
rf_frame_lem channel receiver index p i h =
    let body : length (slice (index * 60) (index * 60 + 60) p) ≡ 60 =
      omega (arith, length-slice (index * 60) (index * 60 + 60) p (omega arith)) in
    let small : index % 256 ≡ index = omega arith in rw (body, append-nil, small)

rf_frame-IsChunk :
    (channel receiver index : ℕ) (p : Bytes)
    → index < 4
    → length p ≡ rf_payload_len
    → IsChunk channel receiver index (rf_frame channel receiver p index)
rf_frame-IsChunk channel receiver index p i h =
    rw (rf_frame_lem channel receiver index p i h) (record {
      sized = omega (arith, length-slice (index * 60) (index * 60 + 60) p (omega arith));
      header = refl;
    })

drop-nil : (n : ℕ) → drop n (let e : Bytes = [] in e) ≡ []
drop-nil zero = refl
drop-nil (suc n) = refl

drop-drop : (m n : ℕ) (xs : Bytes) → drop m (drop n xs) ≡ drop (n + m) xs
drop-drop m zero xs = ap (λ k. drop k xs) (omega arith)
drop-drop m (suc n) [] = drop-nil m ∙ sym (drop-nil (suc n + m))
drop-drop m (suc n) (x ∷ xs) =
    let step : suc n + m ≡ suc (n + m) = omega arith in rw step (drop-drop m n xs)

take-append-rest :
    (n k : ℕ) (xs rest : Bytes) → rest ≡ drop (k + n) xs → take n (drop k xs) ++ rest ≡ drop k xs
take-append-rest n k xs rest e = rw (e, ← drop-drop n k xs) (take-append-drop n (drop k xs))

-- The four frames of a 240-byte payload are chunks 0 to 3 for the channel and receiver given, each
-- 64 bytes long, and their bodies put together in order are the payload.
pub rf_frames_carry :
    (channel receiver : ℕ) (p : Bytes)
    → length p ≡ rf_payload_len
    → (f0 : Bytes) × (f1 : Bytes) × (f2 : Bytes) × (f3 : Bytes) × (rf_frames channel receiver p
        ≡ f0 ∷ f1 ∷ f2 ∷ f3 ∷ [])
      × IsChunk channel receiver 0 f0
      × IsChunk channel receiver 1 f1
      × IsChunk channel receiver 2 f2
      × IsChunk channel receiver 3 f3
      × (reassemble (rf_frames channel receiver p) ≡ p)
unfolding rf_frames
rf_frames_carry channel receiver p h =
    let frame : ℕ → Bytes = rf_frame channel receiver p in
    (
      frame 0,
      frame 1,
      frame 2,
      frame 3,
      refl,
      rf_frame-IsChunk channel receiver 0 p (omega arith) h,
      rf_frame-IsChunk channel receiver 1 p (omega arith) h,
      rf_frame-IsChunk channel receiver 2 p (omega arith) h,
      rf_frame-IsChunk channel receiver 3 p (omega arith) h,
      rw
          (
            rf_frame_lem channel receiver 0 p (omega arith) h,
            rf_frame_lem channel receiver 1 p (omega arith) h,
            rf_frame_lem channel receiver 2 p (omega arith) h,
            rf_frame_lem channel receiver 3 p (omega arith) h,
          )
          (take-append-rest 60 0 p _ (
            take-append-rest 60 60 p _ (
              take-append-rest 60 120 p _ (
                take-append-rest 60 180 p _
                  (sym (eq-nil (drop 240 p) (omega (arith, length-drop 240 p)))))))),
    )
