-- ===== src/Frame/Channels.antt =====
-- src/frame.rs, `channel_scan` and `connect_attempts`: which channels a connect tries.
use fan_control_lian_li_wire.Base.{
  ℕ, suc, ◌≤◌, ◌<◌, ◌≡◌, refl, ◌∙◌, inl, inr, true, ◌&&◌, List, [], ◌∷◌, arith, ltb, leb, ◌==◌,
  if◌then◌else◌, ltb→lt, ==_iff, Bool-cases, tabulate, tabulated, All,
}
use fan_control_lian_li_wire.Frame.{channel_scan}

abbrev pub count : ℕ → List ℕ → ℕ
count c [] = 0
count c (x ∷ xs) = let rest = count c xs in if x == c then suc rest else rest

abbrev in_range : ℕ → ℕ
in_range c = if leb 1 c && leb c 39 then 1 else 0

count_above : (n c : ℕ) (xs : List ℕ) → All (λ x. x < n) xs → n ≤ c → count c xs ≡ 0
count_above n c [] a h = refl
count_above n c (x ∷ xs) a h = ground (arith, count_above n c xs a.1 h)

scan_below : All (λ x. x < 40) channel_scan
unfolding channel_scan
scan_below = omega arith

scan_table : tabulate (λ c. count c channel_scan == in_range c) 40 ≡ true
unfolding tabulate channel_scan
scan_table = refl

-- The scan tries each channel from 1 to 39 exactly once, and no other.
pub count-channel_scan : (c : ℕ) → count c channel_scan ≡ (if leb 1 c && leb c 39 then 1 else 0)
count-channel_scan c = elim (Bool-cases (ltb c 40)) [
  | inl small ↦ (==_iff _ _).0 (tabulated _ 40 scan_table c (ltb→lt c 40 small))
  | inr large ↦ count_above 40 c channel_scan scan_below (ground arith) ∙ ground arith
]
