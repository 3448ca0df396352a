-- ===== src/Speed/Acknowledge.antt =====
-- src/speed.rs, `acknowledged` and `differs`.
use fan_control_lian_li_wire.Base.{ℕ, ◌+◌, ◌≤◌, ◌<◌, ◌≡◌, refl, ◌↔◌, true, [], ◌∷◌, arith, Bytes}
use fan_control_lian_li_wire.Speed.{tolerance, exact_below, acknowledges, acknowledged, differs}

-- Duties of at most 10 are reported exactly, and higher ones to within 5.
abbrev pub Close : Bytes → Bytes → Type 0
Close [] sent = Unit {0}
Close (r ∷ rs) [] = Unit {0}
Close (r ∷ rs) (s ∷ ss) =
    ((s ≤ exact_below → r ≡ s) × (exact_below < s → (r ≤ s + tolerance) × (s ≤ r + tolerance)))
    × Close rs ss

acknowledges_sound :
    (r s : ℕ)
    → acknowledges r s ≡ true
    → (s ≤ exact_below → r ≡ s) × (exact_below < s → (r ≤ s + tolerance) × (s ≤ r + tolerance))
unfolding acknowledges
acknowledges_sound r s h = ((λ p. ground arith), λ p. ground arith)

acknowledges_complete :
    (r s : ℕ)
    → (s ≤ exact_below → r ≡ s)
    → (exact_below < s → (r ≤ s + tolerance) × (s ≤ r + tolerance))
    → acknowledges r s ≡ true
unfolding acknowledges
acknowledges_complete r s p q = ground arith

acknowledged_sound : (r s : Bytes) → acknowledged r s ≡ true → Close r s
unfolding acknowledged
acknowledged_sound [] s h = tt
acknowledged_sound (r ∷ rs) [] h = tt
acknowledged_sound (r ∷ rs) (s ∷ ss) h =
    (acknowledges_sound r s (ground arith), acknowledged_sound rs ss (ground arith))

acknowledged_complete : (r s : Bytes) → Close r s → acknowledged r s ≡ true
unfolding acknowledged
acknowledged_complete [] s h = refl
acknowledged_complete (r ∷ rs) [] h = refl
acknowledged_complete (r ∷ rs) (s ∷ ss) h =
    rw (acknowledges_complete r s h.0.0 h.0.1) (acknowledged_complete rs ss h.1)

-- Reported duties acknowledge the ones sent exactly when they are close slot by slot, and are sent
-- again exactly when they are not.
pub acknowledged_iff :
    (r s : Bytes) → ((acknowledged r s ≡ true) ↔ Close r s) × ((differs r s ≡ true) ↔ (¬ Close r s))
unfolding differs
acknowledged_iff r s = (
  (acknowledged_sound r s, acknowledged_complete r s),
  (
    (λ h c. ground (arith, acknowledged_complete r s c)),
    λ n. ground (arith, λ (h : acknowledged r s ≡ true). n (acknowledged_sound r s h)),
  ),
)
