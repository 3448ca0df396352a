-- ===== src/Base/Ascii.antt =====
-- What the program asks of text: ASCII case, prefixes, splitting, trimming, and decoding UTF-16.
use Prim.Native.Nat.{ℕ, zero, suc, ◌+◌, ◌-◌, ◌*◌, ◌/◌, ◌%◌, ◌<◌}
use mathlib.Core.Path.{◌≡◌, refl}
use mathlib.Core.Bool.{Bool, true, false, ◌&&◌}
use mathlib.Core.Option.{Option, none, some}
use native.Mathlib.Omega.{arith}
use mathlib.Core.List.{List, [], ◌∷◌, ◌++◌, map}
use fan_control_lian_li_wire.Base.Tests.{ltb, leb, ◌==◌, if◌then◌else◌}
use fan_control_lian_li_wire.Base.Lists.{length, All}
use fan_control_lian_li_wire.Base.ByteStrings.{Bytes, bytes_eq}
use fan_control_lian_li_wire.Base.Text.{bytes}

-- `to_ascii_lowercase`.
abbrev pub lower : ℕ → ℕ
lower c = if leb b'A' c && leb c b'Z' then c + 32 else c

abbrev pub to_ascii_lowercase : Bytes → Bytes
to_ascii_lowercase = map lower

abbrev pub eq_ignore_ascii_case : Bytes → Bytes → Bool
eq_ignore_ascii_case a b = bytes_eq (to_ascii_lowercase a) (to_ascii_lowercase b)

-- `s.starts_with(prefix)`.
abbrev pub starts_with : Bytes → Bytes → Bool
starts_with s [] = true
starts_with [] (p ∷ ps) = false
starts_with (c ∷ cs) (p ∷ ps) = c == p && starts_with cs ps

-- `split_once` at the first byte that is `mark`.
unfoldable pub split_once : ℕ → Bytes → Option (Bytes × Bytes)
split_once mark [] = none
split_once mark (c ∷ cs) =
    if c == mark
    then some ([], cs)
    else elim (split_once mark cs) [ none ↦ none | some (before, after) ↦ some (c ∷ before, after) ]

-- The code points with the property White_Space, in UTF-8.
abbrev spaces : List Bytes
spaces =
    (0x09 ∷ [])
    ∷ (0x0A ∷ [])
    ∷ (0x0B ∷ [])
    ∷ (0x0C ∷ [])
    ∷ (0x0D ∷ [])
    ∷ (0x20 ∷ [])
    ∷ (0xC2 ∷ 0x85 ∷ [])
    ∷ (0xC2 ∷ 0xA0 ∷ [])
    ∷ (0xE1 ∷ 0x9A ∷ 0x80 ∷ [])
    ∷ (0xE2 ∷ 0x80 ∷ 0x80 ∷ [])
    ∷ (0xE2 ∷ 0x80 ∷ 0x81 ∷ [])
    ∷ (0xE2 ∷ 0x80 ∷ 0x82 ∷ [])
    ∷ (0xE2 ∷ 0x80 ∷ 0x83 ∷ [])
    ∷ (0xE2 ∷ 0x80 ∷ 0x84 ∷ [])
    ∷ (0xE2 ∷ 0x80 ∷ 0x85 ∷ [])
    ∷ (0xE2 ∷ 0x80 ∷ 0x86 ∷ [])
    ∷ (0xE2 ∷ 0x80 ∷ 0x87 ∷ [])
    ∷ (0xE2 ∷ 0x80 ∷ 0x88 ∷ [])
    ∷ (0xE2 ∷ 0x80 ∷ 0x89 ∷ [])
    ∷ (0xE2 ∷ 0x80 ∷ 0x8A ∷ [])
    ∷ (0xE2 ∷ 0x80 ∷ 0xA8 ∷ [])
    ∷ (0xE2 ∷ 0x80 ∷ 0xA9 ∷ [])
    ∷ (0xE2 ∷ 0x80 ∷ 0xAF ∷ [])
    ∷ (0xE2 ∷ 0x81 ∷ 0x9F ∷ [])
    ∷ (0xE3 ∷ 0x80 ∷ 0x80 ∷ [])
    ∷ []

reversed : Bytes → Bytes → Bytes
reversed [] onto = onto
reversed (c ∷ cs) onto = reversed cs (c ∷ onto)

strip_prefix : Bytes → Bytes → Option Bytes
strip_prefix s [] = some s
strip_prefix [] (p ∷ ps) = none
strip_prefix (c ∷ cs) (p ∷ ps) = if c == p then strip_prefix cs ps else none

strip_any : List Bytes → Bytes → Option Bytes
strip_any [] s = none
strip_any (p ∷ ps) s = elim (strip_prefix s p) [ none ↦ strip_any ps s | some rest ↦ some rest ]

-- Every round takes at least one byte, so the length is fuel enough.
strip_all : ℕ → List Bytes → Bytes → Bytes
strip_all zero ps s = s
strip_all (suc fuel) ps s = elim (strip_any ps s) [ none ↦ s | some rest ↦ strip_all fuel ps rest ]

-- `trim_end`. The text is whole UTF-8, where no code point ends in the bytes of another.
unfoldable pub trim_end : Bytes → Bytes
unfolding reversed strip_prefix strip_any strip_all
trim_end s = reversed (strip_all (length s) (map (λ p. reversed p []) spaces) (reversed s [])) []

-- `trim`.
unfoldable pub trim : Bytes → Bytes
unfolding strip_prefix strip_any strip_all trim_end
trim s = trim_end (strip_all (length s) spaces s)

trim_test : trim (bytes "  q \r\n") ≡ bytes "q"
unfolding trim
trim_test = refl

utf8 : ℕ → Bytes
utf8 c =
    if ltb c 0x80
    then c ∷ []
    else if ltb c 0x800
    then (0xC0 + c / 0x40) ∷ (0x80 + c % 0x40) ∷ []
    else if ltb c 0x10000
    then (0xE0 + c / 0x1000) ∷ (0x80 + c / 0x40 % 0x40) ∷ (0x80 + c % 0x40) ∷ []
    else (0xF0 + c / 0x40000)
      ∷ (0x80 + c / 0x1000 % 0x40)
      ∷ (0x80 + c / 0x40 % 0x40)
      ∷ (0x80 + c % 0x40)
      ∷ []

abbrev is_high : ℕ → Bool
is_high u = leb 0xD800 u && ltb u 0xDC00

abbrev is_low : ℕ → Bool
is_low u = leb 0xDC00 u && ltb u 0xE000

-- A high surrogate that waits for the unit after it.
from_utf16 : Option ℕ → List ℕ → Bytes
from_utf16 none [] = []
from_utf16 (some high) [] = utf8 0xFFFD
from_utf16 none (u ∷ us) = elim (is_high u) [
  | true ↦ from_utf16 (some u) us
  | false ↦ utf8 (if is_low u then 0xFFFD else u) ++ from_utf16 none us
]
from_utf16 (some high) (u ∷ us) = elim (is_low u) [
  | true ↦ utf8 (0x10000 + (high - 0xD800) * 0x400 + (u - 0xDC00)) ++ from_utf16 none us
  | false ↦
      utf8 0xFFFD
      ++ elim (is_high u) [ true ↦ from_utf16 (some u) us | false ↦ utf8 u ++ from_utf16 none us ]
]

-- `String::from_utf16_lossy`.
unfoldable pub from_utf16_lossy : List ℕ → Bytes
unfolding utf8 from_utf16
from_utf16_lossy = from_utf16 none

from_utf16-ascii : (units : List ℕ) → All (λ u. u < 128) units → from_utf16 none units ≡ units
unfolding from_utf16 utf8
from_utf16-ascii [] h = refl
from_utf16-ascii (u ∷ us) h =
    let lt = h.0 in
    let high : is_high u ≡ false = ground arith in
    let low : is_low u ≡ false = ground arith in
    let ascii : ltb u 0x80 ≡ true = ground arith in
    rw (high, from_utf16, low, ascii, utf8, from_utf16-ascii us h.1) refl

-- ASCII is decoded to itself.
pub from_utf16_lossy-ascii :
    (units : List ℕ) → All (λ u. u < 128) units → from_utf16_lossy units ≡ units
unfolding from_utf16_lossy
from_utf16_lossy-ascii units h = from_utf16-ascii units h

utf16_test :
    from_utf16_lossy (0x41 ∷ 0xD83D ∷ 0xDE00 ∷ 0xDC00 ∷ 0xE9 ∷ [])
    ≡ 0x41 ∷ 0xF0 ∷ 0x9F ∷ 0x98 ∷ 0x80 ∷ 0xEF ∷ 0xBF ∷ 0xBD ∷ 0xC3 ∷ 0xA9 ∷ []
unfolding from_utf16_lossy
utf16_test = refl
