-- ===== src/Speed/Percent.antt =====
-- src/speed.rs, `duty_from_percent` and `percent_from_duty`.
use fan_control_lian_li_wire.Base.{ℕ, ◌+◌, ◌≤◌, ◌<◌, ◌≡◌, arith}
use fan_control_lian_li_wire.Speed.{max_duty, duty_from_percent, percent_from_duty}

-- Any percentage from 0 to 100 comes back from the duty it is turned into.
pub percent_from_duty-duty_from_percent :
    (p : ℕ) → p ≤ 100 → percent_from_duty (duty_from_percent p) ≡ p
unfolding percent_from_duty duty_from_percent
percent_from_duty-duty_from_percent p h = omega arith

-- Any duty comes back from its percentage to within one step.
pub duty_from_percent-percent_from_duty :
    (d : ℕ)
    → d < 256
    → (duty_from_percent (percent_from_duty d) ≤ d + 1)
      × (d ≤ duty_from_percent (percent_from_duty d) + 1)
unfolding percent_from_duty duty_from_percent
duty_from_percent-percent_from_duty d h = omega arith

-- A higher percentage never gives a lower duty, and anything from 100 up gives the highest one.
pub duty_from_percent_mono : (p q : ℕ) → p ≤ q → duty_from_percent p ≤ duty_from_percent q
unfolding duty_from_percent
duty_from_percent_mono p q h = omega arith

pub duty_from_percent_full : (p : ℕ) → 100 ≤ p → duty_from_percent p ≡ max_duty
unfolding duty_from_percent
duty_from_percent_full p h = omega arith
