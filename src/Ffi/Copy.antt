-- ===== src/Ffi/Copy.antt =====
-- src/ffi.rs, `copy_out`: how a text is cut to fit.
use fan_control_lian_li_wire.Base.{
  ℕ, zero, suc, ◌-◌, ◌≤◌, ◌<◌, min, ◌≡◌, refl, subst, inl, inr, true, false, [], ◌∷◌, ◌++◌, arith,
  ◌==◌, Bool-cases, length, take, Bytes,
}
use fan_control_lian_li_wire.Ffi.{is_char_boundary, boundary_from, copy_out}

starts : (text : Bytes) → is_char_boundary text 0 ≡ true
unfolding is_char_boundary
starts text = refl

last_is_not :
    (text : Bytes) (n k : ℕ)
    → k ≤ suc n
    → is_char_boundary text k ≡ true
    → is_char_boundary text (suc n) ≡ false
    → k ≤ n
last_is_not text n k h b e = elim (Bool-cases (k == suc n)) [
  | inl same ↦
      let at : k ≡ suc n = ground (arith, same) in
      absurd (ground (arith, subst (λ x. is_char_boundary text x ≡ true) at b, e))
  | inr other ↦ ground (arith, h, other)
]

boundary_from_lem :
    (text : Bytes) (n k : ℕ)
    → k ≤ n
    → is_char_boundary text k ≡ true
    → (boundary_from text n ≤ n)
      × (is_char_boundary text (boundary_from text n) ≡ true)
      × (k ≤ boundary_from text n)
unfolding boundary_from
boundary_from_lem text zero k h b = (omega arith, starts text, h)
boundary_from_lem text (suc n) k h b = elim (Bool-cases (is_char_boundary text (suc n))) [
  | inl e ↦ rw e (omega arith, e, h)
  | inr e ↦
      let below : k ≤ n = last_is_not text n k h b e in
      let ih = boundary_from_lem text n k below b in rw e (omega (arith, ih.0), ih.1, ih.2)
]

-- A text that is cut to fit ends with a NUL inside of the buffer and at the end of a character, and
-- is cut no shorter than any such place: all of it is there if it fits.
pub copy_out_lem :
    (text : Bytes) (len k : ℕ)
    → k < len
    → k ≤ length text
    → is_char_boundary text k ≡ true
    → let (end, written) = copy_out text len in
      (end < len)
      × (end ≤ length text)
      × (is_char_boundary text end ≡ true)
      × (k ≤ end)
      × (written ≡ take end text ++ (0 ∷ []))
unfolding copy_out
copy_out_lem text len k h l b =
    let (bounded, boundary, longest) =
      boundary_from_lem text (min (length text) (len - 1)) k (omega (arith, h, l)) b in
    (omega (arith, bounded, h), omega (arith, bounded), boundary, longest, refl)
