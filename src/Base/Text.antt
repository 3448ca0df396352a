-- ===== src/Base/Text.antt =====
-- The text that the program formats: a Rust `String` is its UTF-8 bytes.
use Prim.Native.Nat.{ℕ, zero, suc, ◌+◌, ◌-◌, ◌/◌, ◌%◌}
use Prim.Native.Char.{code}
use Prim.Native.String.{String}
use mathlib.Core.Path.{◌≡◌, refl}
use mathlib.Core.List.{List, [], ◌∷◌, ◌++◌}
use fan_control_lian_li_wire.Base.Lists.{length, replicate}
use fan_control_lian_li_wire.Base.Tests.{ltb, if◌then◌else◌}
use fan_control_lian_li_wire.Base.ByteStrings.{Bytes}

-- An ASCII literal.
abbrev pub bytes : String → Bytes
bytes String.[] = []
bytes (String.◌∷◌ c s) = code c ∷ bytes s

-- The digits of `n` in front of `rest`; `n + 1` is more fuel than `n` has digits.
unfoldable pub decimal_from : ℕ → ℕ → Bytes → Bytes
decimal_from zero n rest = rest
decimal_from (suc f) n rest =
    let more = decimal_from f (n / 10) ((b'0' + n % 10) ∷ rest) in
    if ltb n 10 then (b'0' + n) ∷ rest else more

-- `{n}`.
unfoldable pub decimal : ℕ → Bytes
unfolding decimal_from
decimal n = decimal_from (suc n) n []

hex_digit : ℕ → ℕ
hex_digit n = if ltb n 10 then b'0' + n else b'a' + (n - 10)

-- `{b:02x}` of a byte.
unfoldable pub hex_byte : ℕ → Bytes
unfolding hex_digit
hex_byte b = hex_digit (b / 16) ∷ hex_digit (b % 16) ∷ []

items_text : List ℕ → Bytes
items_text [] = []
items_text (n ∷ []) = decimal n
items_text (n ∷ k ∷ rest) = decimal n ++ bytes ", " ++ items_text (k ∷ rest)

-- `{items:?}` of a slice of integers.
unfoldable pub list_text : List ℕ → Bytes
unfolding items_text
list_text items = bytes "[" ++ items_text items ++ bytes "]"

-- The same joined by a separator: `join` of a slice of strings.
unfoldable pub join_with : Bytes → List Bytes → Bytes
join_with between [] = []
join_with between (x ∷ []) = x
join_with between (x ∷ y ∷ rest) = x ++ between ++ join_with between (y ∷ rest)

-- `{:>width}` for 32 and `{:0width}` for 48, of text that is already made.
unfoldable pub pad_left : ℕ → ℕ → Bytes → Bytes
pad_left fill width s = replicate (width - length s) fill ++ s

decimal_test : decimal 1048 ++ hex_byte 0x7c ≡ bytes "10487c"
unfolding decimal hex_byte
decimal_test = refl
