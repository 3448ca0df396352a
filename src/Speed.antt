-- ===== src/Speed.antt =====
-- src/speed.rs: the command that sets a group's fan duties. The four duties of a group are a list
-- of four bytes.
mod Examples
pub mod Percent
pub mod Prepare
pub mod Reverse
pub mod Slots
pub mod Acknowledge
pub mod Payload
use mathlib.Core.List.{reverse}
use fan_control_lian_li_wire.Base.{
  ℕ, suc, ◌+◌, ◌-◌, ◌*◌, ◌/◌, ◌%◌, ◌^◌, ◌≤◌, ◌<◌, min, max, ◌≡◌, ap, ◌∙◌, ◌≡⟨◌⟩◌, ◌∎, ◌≢◌, ◌↔◌, ◌⊎◌,
  Bool, true, false, not, ◌&&◌, ◌||◌, Option, none, some, List, [], ◌∷◌, ◌++◌, map, ltb, leb, ◌==◌,
  if◌then◌else◌, set, take, drop, replicate, find, filter, position_from, Bytes, copy_at, bytes_eq,
  bytes, ◌>>=◌,
}
use fan_control_lian_li_wire.Frame.{rf_payload_len}
use fan_control_lian_li_wire.Discovery.{fans_per_group, Device}

abbrev pub max_duty : ℕ
max_duty = 255

abbrev pub tolerance : ℕ
tolerance = 5

abbrev pub exact_below : ℕ
exact_below = 10

abbrev pub select : ℕ
select = 0x12

abbrev pub pwm : ℕ
pwm = 0x10

unfoldable pub duty_from_percent : ℕ → ℕ
duty_from_percent percent = (min percent 100 * max_duty + 50) / 100 % 256

unfoldable pub percent_from_duty : ℕ → ℕ
percent_from_duty duty = (duty * 100 + max_duty / 2) / max_duty % 256

-- `lo..=hi` as a pattern.
abbrev pub within : ℕ → ℕ → ℕ → Bool
within lo hi x = leb lo x && leb x hi

unfoldable pub model : Device → Option ℕ
model d =
    if within 1 11 d.device_type
      || d.device_type == 65
      || d.device_type == 66
      || d.device_type == 88
    then none
    else find (λ b. not (b == 0)) d.fan_types

-- The inner match of `min_percent`, on the fan model.
unfoldable pub model_percent : Option ℕ → ℕ
model_percent none = 10
model_percent (some m) =
    if within 20 26 m || within 59 62 m
    then 14
    else (if within 28 31 m || within 36 39 m || within 51 58 m
        then 11
        else (if m == 63 then 8 else 10))

unfoldable pub min_percent : Device → ℕ
unfolding model_percent model
min_percent d =
    if within 1 9 d.device_type || d.device_type == 65 || d.device_type == 88
    then 0
    else (if d.device_type == 10 || d.device_type == 11 || d.device_type == 66
        then 10
        else model_percent (model d))

unfoldable pub min_duty : Device → ℕ
unfolding min_percent
min_duty d = min_percent d * max_duty / 100 % 256

unfoldable pub is_cooler : Device → Bool
is_cooler d = d.device_type == 10 || d.device_type == 11

abbrev skips : Option ℕ → Bool
skips none = false
skips (some m) = within 40 42 m || m == 126 || m == 127

unfoldable pub filters_duty : Device → Bool
unfolding model
filters_duty d = skips (model d)

-- The `match` that skips the duties 153 to 155.
unfoldable pub skip_duty : ℕ → ℕ
skip_duty value =
    if value == 153 || value == 154 then 152 else (if value == 155 then 156 else value)

-- One round of the loop of `prepare`.
unfoldable pub prepare_slot : Device → ℕ → ℕ → ℕ → ℕ
unfolding skip_duty
prepare_slot d floor slot value =
    let pump = slot == fans_per_group - 1 && is_cooler d in
    if leb d.fan_count slot && not pump
    then 0
    else (let raised = if ltb 0 value && ltb value floor then floor else value in
        if filters_duty d then skip_duty raised else raised)

pub prepare_slots : Device → ℕ → ℕ → Bytes → Bytes
unfolding prepare_slot
prepare_slots d floor slot [] = []
prepare_slots d floor slot (v ∷ vs) =
    prepare_slot d floor slot v ∷ prepare_slots d floor (suc slot) vs

-- `duty[..fans].reverse()`.
unfoldable pub reverse_first : ℕ → Bytes → Bytes
reverse_first fans duty = reverse (take fans duty) ++ drop fans duty

unfoldable pub prepare : Device → Bytes → Bytes
unfolding prepare_slots
prepare d wanted =
    let duty = prepare_slots d (min_duty d) 0 wanted in
    if d.right_attach
    then (let fans = min d.fan_count fans_per_group in
        if ltb 1 fans then reverse_first fans duty else duty)
    else duty

unfoldable pub payload : Device → Bytes → ℕ → ℕ → Bytes → Bytes
payload d master_mac channel slot duty =
    let d0 = set (set (replicate rf_payload_len 0) 0 select) 1 pwm in
    let d1 = copy_at 8 master_mac (copy_at 2 d.mac d0) in
    copy_at 17 duty (set (set (set d1 14 d.receiver) 15 channel) 16 slot)

-- `map(|index| (index + 1) as u8).unwrap_or(1)`.
abbrev slot_of : Option ℕ → ℕ
slot_of none = 1
slot_of (some index) = (index + 1) % 256

unfoldable pub slot : List Device → Bytes → Bytes → ℕ
slot devices master_mac mac = slot_of (
    position_from 0 (λ d. bytes_eq d.mac mac)
      (filter (λ d. bytes_eq d.master_mac master_mac) devices))

-- The test of one pair of duties in `acknowledged`.
unfoldable pub acknowledges : ℕ → ℕ → Bool
acknowledges r s = if leb s exact_below then r == s else leb ((r - s) + (s - r)) tolerance

unfoldable pub acknowledged : Bytes → Bytes → Bool
unfolding acknowledges
acknowledged [] sent = true
acknowledged (r ∷ rs) [] = true
acknowledged (r ∷ rs) (s ∷ ss) = acknowledges r s && acknowledged rs ss

unfoldable pub differs : Bytes → Bytes → Bool
unfolding acknowledged
differs reported wanted = not (acknowledged reported wanted)
