-- ===== src/Speed/Prepare.antt =====
-- src/speed.rs, `prepare` and `min_duty`: what goes to each slot.
use fan_control_lian_li_wire.Base.{
  ℕ, zero, suc, ◌+◌, ◌-◌, ◌≤◌, ◌<◌, min, max, ◌≡◌, refl, ap, ◌∙◌, ◌⊎◌, inl, inr, Bool, true, false,
  ◌&&◌, ◌||◌, Option, none, some, [], ◌∷◌, arith, ltb, leb, ◌==◌, if◌then◌else◌, Bool-cases, length,
  Bytes, byte_at, four_elements,
}
use fan_control_lian_li_wire.Discovery.{fans_per_group, Device}
use fan_control_lian_li_wire.Speed.{
  model, model_percent, min_percent, min_duty, is_cooler, filters_duty, prepare_slot, prepare_slots,
  reverse_first, prepare, slot,
}

model_percent-le : (m : Option ℕ) → model_percent m ≤ 14
unfolding model_percent
model_percent-le none = omega arith
model_percent-le (some m) = ground arith

min_percent-le : (d : Device) → min_percent d ≤ 14
unfolding min_percent
min_percent-le d = ground (arith, model_percent-le (model d))

-- No fan model's lowest duty is above 35.
pub min_duty-le : (d : Device) → min_duty d ≤ 35
unfolding min_duty
min_duty-le d = omega (arith, min_percent-le d)

-- The slot has a fan, or is a cooler's pump.
abbrev pub drives : Device → ℕ → Bool
drives d slot = ltb slot d.fan_count || slot == fans_per_group - 1 && is_cooler d

-- What one slot is sent for the duty that was asked of it.
pub record Prepared (d : Device) (slot asked out : ℕ) : Type 0 where
  pub unused : drives d slot ≡ false → out ≡ 0
  pub stopped : asked ≡ 0 → out ≡ 0
  pub raised : drives d slot ≡ true → 0 < asked → asked < min_duty d → out ≡ min_duty d
  pub kept :
      drives d slot ≡ true
      → min_duty d ≤ asked
      → (filters_duty d ≡ false) ⊎ ((asked < 153) ⊎ (155 < asked))
      → out ≡ asked
  pub skipped :
      drives d slot ≡ true
      → filters_duty d ≡ true
      → ((asked ≡ 153) ⊎ (asked ≡ 154) → out ≡ 152) × (asked ≡ 155 → out ≡ 156)

prepare_slot-Prepared :
    (d : Device) (slot asked : ℕ) → Prepared d slot asked (prepare_slot d (min_duty d) slot asked)
unfolding prepare_slot
prepare_slot-Prepared d slot asked = record {
  unused = λ h. ground arith;
  stopped = λ h. ground arith;
  raised = λ h p q. ground (arith, min_duty-le d);
  kept = λ h p q. ground arith;
  skipped = λ h p. (λ q. ground (arith, min_duty-le d), λ q. ground (arith, min_duty-le d));
}

-- The wanted slot whose duty goes out in slot `i`.
abbrev pub source_slot : Device → ℕ → ℕ
source_slot d i =
    let fans = min d.fan_count fans_per_group in
    if d.right_attach && ltb i fans then fans - 1 - i else i

reverse_first-at :
    (fans i a b c e : ℕ)
    → fans ≤ 4
    → i < 4
    → byte_at (reverse_first fans (a ∷ b ∷ c ∷ e ∷ [])) i
      ≡ byte_at (a ∷ b ∷ c ∷ e ∷ []) (if ltb i fans then fans - 1 - i else i)
unfolding reverse_first
reverse_first-at zero zero a b c e h k = refl
reverse_first-at zero (suc zero) a b c e h k = refl
reverse_first-at zero (suc (suc zero)) a b c e h k = refl
reverse_first-at zero (suc (suc (suc zero))) a b c e h k = refl
reverse_first-at (suc zero) zero a b c e h k = refl
reverse_first-at (suc zero) (suc zero) a b c e h k = refl
reverse_first-at (suc zero) (suc (suc zero)) a b c e h k = refl
reverse_first-at (suc zero) (suc (suc (suc zero))) a b c e h k = refl
reverse_first-at (suc (suc zero)) zero a b c e h k = refl
reverse_first-at (suc (suc zero)) (suc zero) a b c e h k = refl
reverse_first-at (suc (suc zero)) (suc (suc zero)) a b c e h k = refl
reverse_first-at (suc (suc zero)) (suc (suc (suc zero))) a b c e h k = refl
reverse_first-at (suc (suc (suc zero))) zero a b c e h k = refl
reverse_first-at (suc (suc (suc zero))) (suc zero) a b c e h k = refl
reverse_first-at (suc (suc (suc zero))) (suc (suc zero)) a b c e h k = refl
reverse_first-at (suc (suc (suc zero))) (suc (suc (suc zero))) a b c e h k = refl
reverse_first-at (suc (suc (suc (suc zero)))) zero a b c e h k = refl
reverse_first-at (suc (suc (suc (suc zero)))) (suc zero) a b c e h k = refl
reverse_first-at (suc (suc (suc (suc zero)))) (suc (suc zero)) a b c e h k = refl
reverse_first-at (suc (suc (suc (suc zero)))) (suc (suc (suc zero))) a b c e h k = refl
reverse_first-at zero (suc (suc (suc (suc i)))) a b c e h k = absurd (omega arith)
reverse_first-at (suc zero) (suc (suc (suc (suc i)))) a b c e h k = absurd (omega arith)
reverse_first-at (suc (suc zero)) (suc (suc (suc (suc i)))) a b c e h k = absurd (omega arith)
reverse_first-at (suc (suc (suc zero))) (suc (suc (suc (suc i)))) a b c e h k = absurd (omega arith)
reverse_first-at (suc (suc (suc (suc zero)))) (suc (suc (suc (suc i)))) a b c e h k =
    absurd (omega arith)
reverse_first-at (suc (suc (suc (suc (suc n))))) i a b c e h k = absurd (omega arith)

-- The slots in the order asked, before any reversal.
slots_at :
    (d : Device) (floor slot i : ℕ) (w : Bytes)
    → i < length w
    → byte_at (prepare_slots d floor slot w) i ≡ prepare_slot d floor (slot + i) (byte_at w i)
unfolding prepare_slots
slots_at d floor slot i [] h = absurd (omega arith)
slots_at d floor slot zero (v ∷ vs) h = ap (λ s. prepare_slot d floor s v) (omega arith)
slots_at d floor slot (suc i) (v ∷ vs) h =
    let step : suc slot + i ≡ slot + suc i = omega arith in
    slots_at d floor (suc slot) i vs (omega arith)
    ∙ ap (λ s. prepare_slot d floor s (byte_at vs i)) step

length-prepare_slots :
    (d : Device) (floor slot : ℕ) (w : Bytes) → length (prepare_slots d floor slot w) ≡ length w
unfolding prepare_slots
length-prepare_slots d floor slot [] = refl
length-prepare_slots d floor slot (v ∷ vs) = ap suc (length-prepare_slots d floor (suc slot) vs)

source_slot-lt : (d : Device) (i : ℕ) → i < 4 → source_slot d i < 4
source_slot-lt d i h = ground arith

reorder-at :
    (right : Bool) (fans i : ℕ) (xs : Bytes)
    → length xs ≡ 4
    → fans ≤ 4
    → i < 4
    → byte_at (if right then (if ltb 1 fans then reverse_first fans xs else xs) else xs) i
      ≡ byte_at xs (if right && ltb i fans then fans - 1 - i else i)
reorder-at false fans i xs h f k = refl
reorder-at true fans i xs h f k = elim (Bool-cases (ltb 1 fans)) [
  | inl many ↦
      let (a, b, c, e, q) = four_elements xs h in
      rw many (rw q (reverse_first-at fans i a b c e f k))
  | inr few ↦
      let same : (if ltb i fans then fans - 1 - i else i) ≡ i = ground arith in rw (few, same)
]

prepare-at :
    (d : Device) (w : Bytes) (i : ℕ)
    → length w ≡ fans_per_group
    → i < fans_per_group
    → byte_at (prepare d w) i ≡ byte_at (prepare_slots d (min_duty d) 0 w) (source_slot d i)
unfolding prepare
prepare-at d w i h k =
    reorder-at d.right_attach (min d.fan_count fans_per_group) i (prepare_slots d (min_duty d) 0 w)
      (length-prepare_slots d (min_duty d) 0 w ∙ h) (omega arith) k

-- What is sent, by `Prepared`.
pub prepare-Prepared :
    (d : Device) (w : Bytes) (i : ℕ)
    → length w ≡ fans_per_group
    → i < fans_per_group
    → Prepared d (source_slot d i) (byte_at w (source_slot d i)) (byte_at (prepare d w) i)
prepare-Prepared d w i h k =
    let j = source_slot d i in
    let from : byte_at (prepare d w) i ≡ prepare_slot d (min_duty d) j (byte_at w j) =
      prepare-at d w i h k
      ∙ slots_at d (min_duty d) 0 j w (omega (arith, source_slot-lt d i k))
      ∙ ap (λ s. prepare_slot d (min_duty d) s (byte_at w j)) (omega arith) in
    rw from (prepare_slot-Prepared d j (byte_at w j))

-- A duty of 153 to 155, moved out of that range where the model filters it.
abbrev pub filtered : Device → ℕ → ℕ
filtered d duty =
    if filters_duty d && leb 153 duty && leb duty 155
    then (if duty == 155 then 156 else 152)
    else duty

-- What a slot is to be sent: nothing where it drives no fan or none is asked for, and else the duty
-- that was asked for, raised to the lowest one of the device and then filtered.
abbrev pub prepared_duty : Device → ℕ → ℕ → ℕ
prepared_duty d slot asked =
    if drives d slot && ltb 0 asked then filtered d (max asked (min_duty d)) else 0

prepare_slot-prepared_duty :
    (d : Device) (slot asked : ℕ)
    → prepare_slot d (min_duty d) slot asked ≡ prepared_duty d slot asked
unfolding prepare_slot
prepare_slot-prepared_duty d slot asked = ground (arith, min_duty-le d)

-- Of four wanted duties, each slot is sent the prepared duty of one wanted slot: of the same one, or
-- on a chain from the right of the mirrored one among the slots with fans.
pub prepare-prepared_duty :
    (d : Device) (w : Bytes) (i : ℕ)
    → length w ≡ fans_per_group
    → i < fans_per_group
    → byte_at (prepare d w) i ≡ prepared_duty d (source_slot d i) (byte_at w (source_slot d i))
prepare-prepared_duty d w i h k =
    let j = source_slot d i in
    prepare-at d w i h k
    ∙ slots_at d (min_duty d) 0 j w (omega (arith, source_slot-lt d i k))
    ∙ ap (λ s. prepare_slot d (min_duty d) s (byte_at w j)) (omega arith)
    ∙ prepare_slot-prepared_duty d j (byte_at w j)
