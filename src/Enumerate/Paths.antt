-- ===== src/Enumerate/Paths.antt =====
-- src/enumerate.rs: the path in the bytes of a detail.
use fan_control_lian_li_wire.Base.{
  ℕ, ◌+◌, ◌*◌, ◌<◌, ◌≡◌, refl, ap, ◌∙◌, false, [], ◌∷◌, ◌++◌, arith, ◌==◌, All, Bytes,
  from_utf16_lossy, from_utf16_lossy-ascii,
}
use fan_control_lian_li_wire.Enumerate.Walk.{u16_units, before_zero, path_of}

-- A path of ASCII characters as UTF-16, little-endian.
abbrev pub utf16_le : Bytes → Bytes
utf16_le [] = []
utf16_le (c ∷ cs) = c ∷ 0 ∷ utf16_le cs

abbrev pub IsAscii : ℕ → Type 0
IsAscii c = (0 < c) × (c < 128)

before_zero-u16_units :
    (p rest : Bytes) → All IsAscii p → before_zero (u16_units (utf16_le p ++ 0 ∷ 0 ∷ rest)) ≡ p
unfolding before_zero u16_units
before_zero-u16_units [] rest h = refl
before_zero-u16_units (c ∷ cs) rest h =
    let h0 = h.0 in
    let unit : c + 0 * 256 ≡ c = omega arith in
    let more : (c == 0) ≡ false = ground arith in
    rw (unit, more, before_zero-u16_units cs rest h.1) refl

All-lt : (p : Bytes) → All IsAscii p → All (λ u. u < 128) p
All-lt [] h = tt
All-lt (c ∷ cs) h = (h.0.1, All-lt cs h.1)

-- A path of ASCII characters is read back from its bytes, whatever stands before it and after its end.
pub path_of-utf16_le :
    (a b c d : ℕ) (p rest : Bytes)
    → All IsAscii p
    → path_of (a ∷ b ∷ c ∷ d ∷ (utf16_le p ++ 0 ∷ 0 ∷ rest)) ≡ p
unfolding path_of
path_of-utf16_le a b c d p rest h =
    ap from_utf16_lossy (before_zero-u16_units p rest h) ∙ from_utf16_lossy-ascii p (All-lt p h)
