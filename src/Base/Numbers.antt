-- ===== src/Base/Numbers.antt =====
-- `str::parse` of an unsigned integer, and that it reads what `decimal` prints.
use Prim.Native.Nat.{ℕ, zero, suc, ◌+◌, ◌-◌, ◌*◌, ◌/◌, ◌%◌, ◌<◌}
use mathlib.Core.Path.{◌≡◌, refl, ◌∙◌}
use mathlib.Core.Logic.{inl, inr}
use mathlib.Core.Bool.{Bool, true, false, ◌&&◌}
use mathlib.Core.Option.{Option, none, some}
use mathlib.Core.List.{[], ◌∷◌}
use native.Mathlib.Omega.{arith}
use fan_control_lian_li_wire.Base.Tests.{ltb, leb, ◌==◌, if◌then◌else◌, Bool-cases}
use fan_control_lian_li_wire.Base.ByteStrings.{Bytes}
use fan_control_lian_li_wire.Base.Text.{decimal_from, decimal}

abbrev pub is_digit : ℕ → Bool
is_digit c = leb b'0' c && leb c b'9'

-- The digits after the value `n`; a value from `limit` on overflows.
digits_from : ℕ → ℕ → Bytes → Option ℕ
digits_from limit n [] = some n
digits_from limit n (c ∷ cs) =
    let value = n * 10 + (c - b'0') in
    let rest = digits_from limit value cs in if is_digit c && ltb value limit then rest else none

-- `s.parse::<uN>()`, with `limit` for 2^N: a `+` may stand in front of the digits.
unfoldable pub parse : ℕ → Bytes → Option ℕ
unfolding digits_from
parse limit [] = none
parse limit (c ∷ []) = digits_from limit 0 (c ∷ [])
parse limit (c ∷ d ∷ cs) =
    if c == b'+' then digits_from limit 0 (d ∷ cs) else digits_from limit 0 (c ∷ d ∷ cs)

digits_from-digit :
    (limit n d : ℕ) (rest : Bytes)
    → d < 10
    → n * 10 + d < limit
    → digits_from limit n ((b'0' + d) ∷ rest) ≡ digits_from limit (n * 10 + d) rest
unfolding digits_from
digits_from-digit limit n d rest lt fits =
    let digit : is_digit (b'0' + d) ≡ true = ground arith in
    let value : n * 10 + (b'0' + d - b'0') ≡ n * 10 + d = omega arith in
    let below : ltb (n * 10 + d) limit ≡ true = ground arith in rw (value, digit, below) refl

digits_from-decimal_from :
    (limit f n : ℕ) (rest : Bytes)
    → n < f
    → n < limit
    → digits_from limit 0 (decimal_from f n rest) ≡ digits_from limit n rest
unfolding decimal_from
digits_from-decimal_from limit zero n rest lt fits = absurd (omega arith)
digits_from-decimal_from limit (suc f) n rest lt fits = elim (Bool-cases (ltb n 10)) [
  | inl e ↦
      let zero_more : 0 * 10 + n ≡ n = omega arith in
      rw (e, decimal_from)
        (rw zero_more at (digits_from-digit limit 0 n rest (ground arith) (omega arith)))
  | inr e ↦
      let step = digits_from-digit limit (n / 10) (n % 10) rest (omega arith) (omega arith) in
      let whole : n / 10 * 10 + n % 10 ≡ n = omega arith in
      rw (e, decimal_from)
        (digits_from-decimal_from limit f (n / 10) ((b'0' + n % 10) ∷ rest) (ground arith)
            (omega arith)
          ∙ rw whole at step)
]

-- The text begins with a digit.
abbrev pub HasDigit : Bytes → Type 0
HasDigit [] = ⊥
HasDigit (c ∷ cs) = is_digit c ≡ true

decimal_from-HasDigit : (f n : ℕ) (rest : Bytes) → n < f → HasDigit (decimal_from f n rest)
unfolding decimal_from
decimal_from-HasDigit zero n rest lt = absurd (omega arith)
decimal_from-HasDigit (suc f) n rest lt = elim (Bool-cases (ltb n 10)) [
  | inl e ↦ rw (e, decimal_from) (ground arith)
  | inr e ↦ rw (e, decimal_from) (decimal_from-HasDigit f (n / 10) _ (ground arith))
]

parse_digits : (limit : ℕ) (s : Bytes) → HasDigit s → parse limit s ≡ digits_from limit 0 s
unfolding parse
parse_digits limit [] h = absurd h
parse_digits limit (c ∷ []) h = refl
parse_digits limit (c ∷ d ∷ cs) h = let plain : (c == b'+') ≡ false = ground arith in rw plain refl

pub decimal-HasDigit : (n : ℕ) → HasDigit (decimal n)
unfolding decimal
decimal-HasDigit n = decimal_from-HasDigit (suc n) n [] (omega arith)

pub parse-decimal : (limit n : ℕ) → n < limit → parse limit (decimal n) ≡ some n
unfolding decimal digits_from
parse-decimal limit n fits =
    parse_digits limit (decimal n) (decimal-HasDigit n)
    ∙ digits_from-decimal_from limit (suc n) n [] (omega arith) fits

digits_from_bound :
    (limit n : ℕ) (s : Bytes) (v : ℕ) → n < limit → digits_from limit n s ≡ some v → v < limit
unfolding digits_from
digits_from_bound limit n [] v fits h = ground arith
digits_from_bound limit n (c ∷ cs) v fits h =
    elim (Bool-cases (is_digit c && ltb (n * 10 + (c - b'0')) limit)) [
      | inl e ↦ digits_from_bound limit (n * 10 + (c - b'0')) cs v (ground arith) (rw e at h)
      | inr e ↦ absurd (cc (rw e at h))
    ]

pub parse_bound : (limit : ℕ) (s : Bytes) (v : ℕ) → 0 < limit → parse limit s ≡ some v → v < limit
unfolding parse
parse_bound limit [] v pos h = cc
parse_bound limit (c ∷ []) v pos h = digits_from_bound limit 0 (c ∷ []) v pos h
parse_bound limit (c ∷ d ∷ cs) v pos h = elim (Bool-cases (c == b'+')) [
  | inl e ↦ digits_from_bound limit 0 (d ∷ cs) v pos (rw e at h)
  | inr e ↦ digits_from_bound limit 0 (c ∷ d ∷ cs) v pos (rw e at h)
]
