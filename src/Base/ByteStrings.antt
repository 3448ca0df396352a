-- ===== src/Base/ByteStrings.antt =====
-- Byte strings: `[u8; n]`, `&[u8]` and `String` are lists of numbers below 256.
use Prim.Native.Nat.{ℕ, ◌+◌, ◌-◌, ◌*◌, ◌/◌, ◌%◌, ◌<◌, ◌≤◌}
use mathlib.Core.Path.{◌≡◌, refl, subst}
use mathlib.Core.Logic.{◌↔◌}
use mathlib.Core.Bool.{Bool, true, false, ◌&&◌}
use mathlib.Core.List.{List, [], ◌∷◌, ◌++◌}
use native.Mathlib.Omega.{arith}
use fan_control_lian_li_wire.Base.Tests.{◌==◌, ltb, if◌then◌else◌}
use fan_control_lian_li_wire.Base.Lists.{
  length, take, drop, get_or, All, length-append, length-take, length-drop,
}

abbrev pub Bytes : Type 0
Bytes = List ℕ

abbrev pub IsByte : ℕ → Type 0
IsByte b = b < 256

-- Every element is a `u8`.
abbrev pub AreBytes : Bytes → Type 0
AreBytes = All IsByte

-- `xs[i]`. Every use is guarded by a length, so the 0 is never read.
abbrev pub byte_at : Bytes → ℕ → ℕ
byte_at xs i = get_or xs i 0

-- `xs[a..b]`, for `a <= b <= xs.len()`.
abbrev pub slice : ℕ → ℕ → Bytes → Bytes
slice a b xs = take (b - a) (drop a xs)

-- `dst[i..i + src.len()].copy_from_slice(src)`, in range.
abbrev pub copy_at : ℕ → Bytes → Bytes → Bytes
copy_at i src dst = take i dst ++ src ++ drop (i + length src) dst

-- `u16::to_be_bytes`.
abbrev pub u16_to_be_bytes : ℕ → Bytes
u16_to_be_bytes n = n / 256 % 256 ∷ n % 256 ∷ []

-- `u16::from_be_bytes` and `u32::from_be_bytes`.
abbrev pub u16_from_be_bytes : ℕ → ℕ → ℕ
u16_from_be_bytes a b = a * 256 + b

abbrev pub u32_from_be_bytes : ℕ → ℕ → ℕ → ℕ → ℕ
u32_from_be_bytes a b c d = ((a * 256 + b) * 256 + c) * 256 + d

-- `==` on byte strings.
abbrev pub bytes_eq : Bytes → Bytes → Bool
bytes_eq [] [] = true
bytes_eq [] (y ∷ ys) = false
bytes_eq (x ∷ xs) [] = false
bytes_eq (x ∷ xs) (y ∷ ys) = x == y && bytes_eq xs ys

pub bytes_eq_sound : (xs ys : Bytes) → bytes_eq xs ys ≡ true → xs ≡ ys
bytes_eq_sound [] [] h = refl
bytes_eq_sound [] (y ∷ ys) h = cc
bytes_eq_sound (x ∷ xs) [] h = cc
bytes_eq_sound (x ∷ xs) (y ∷ ys) h = ground (arith, bytes_eq_sound xs ys)

pub bytes_eq_refl : (xs : Bytes) → bytes_eq xs xs ≡ true
bytes_eq_refl [] = refl
bytes_eq_refl (x ∷ xs) = ground (arith, bytes_eq_refl xs)

pub bytes_eq_iff : (xs ys : Bytes) → (bytes_eq xs ys ≡ true) ↔ (xs ≡ ys)
bytes_eq_iff xs ys =
    (bytes_eq_sound xs ys, λ e. subst (λ zs. bytes_eq xs zs ≡ true) e (bytes_eq_refl xs))

-- `<` on byte strings: lexicographic.
abbrev pub bytes_lt : Bytes → Bytes → Bool
bytes_lt [] [] = false
bytes_lt [] (y ∷ ys) = true
bytes_lt (x ∷ xs) [] = false
bytes_lt (x ∷ xs) (y ∷ ys) = if x == y then bytes_lt xs ys else ltb x y

pub length-copy_at :
    (i : ℕ) (src dst : Bytes)
    → i + length src ≤ length dst
    → length (copy_at i src dst) ≡ length dst
length-copy_at i src dst h = omega (
  arith,
  length-append (take i dst ++ src) (drop (i + length src) dst),
  length-append (take i dst) src,
  length-take i dst,
  length-drop (i + length src) dst,
)
