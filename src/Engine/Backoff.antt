-- ===== src/Engine/Backoff.antt =====
-- src/engine.rs, `recover`: how long it waits between attempts, and which channels it scans.
use native.Mathlib.Nat.{mul_comm, mul_assoc, mul-le-mul_right}
use native.Mathlib.Numerals.{unary_clauses}
use fan_control_lian_li_wire.Base.{
  ℕ, zero, suc, ◌+◌, ◌*◌, ◌^◌, ◌≤◌, min, ◌≡◌, refl, sym, ap, ◌∙◌, inl, inr, Bool, false, some, List,
  [], ◌∷◌, arith, ltb, leb, Bool-cases, length, Bytes, secs, err,
}
use fan_control_lian_li_wire.Engine.{poll_failures, reconnect_max_wait, Link, Core}
use fan_control_lian_li_wire.Engine.Recover.{waits, still_lost, recover}
use fan_control_lian_li_wire.Engine.Steady.{Settings, fail-Logged}
use fan_control_lian_li_wire.Dongle

doubled :
    (w k : ℕ) → 1 ≤ k → min (min (w * 2) (secs 60) * k) (secs 60) ≡ min (w * (k * 2)) (secs 60)
doubled w k h =
    let all : w * (k * 2) ≡ w * 2 * k = ap (λ x. w * x) (mul_comm k 2) ∙ sym (mul_assoc w 2 k) in
    elim (Bool-cases (leb (w * 2) (secs 60))) [
      | inl e ↦
          let small : min (w * 2) (secs 60) ≡ w * 2 = ground (arith, e) in rw (small, all) refl
      | inr e ↦
          let large : min (w * 2) (secs 60) ≡ secs 60 = ground (arith, e) in
          let more : secs 60 * k ≤ w * 2 * k = mul-le-mul_right k (ground (arith, e)) in
          rw (large, all) (omega (arith, more, h))
    ]

pow_pos : (n : ℕ) → 1 ≤ 2 ^ n
pow_pos zero = omega arith
pow_pos (suc n) = simp unary_clauses (omega (arith, pow_pos n))

thirty_two : (k : ℕ) → 32 ≤ 2 ^ (5 + k)
thirty_two zero = omega arith
thirty_two (suc k) = simp unary_clauses (omega (arith, thirty_two k))

capped : (n : ℕ) → leb reconnect_max_wait (min (secs 2 * 2 ^ n) (secs 60)) ≡ leb 5 n
capped zero = refl
capped (suc zero) = refl
capped (suc (suc zero)) = refl
capped (suc (suc (suc zero))) = refl
capped (suc (suc (suc (suc zero)))) = refl
capped (suc (suc (suc (suc (suc k))))) = ground (arith, thirty_two k)

module _ (message : ℕ → Bytes) (link : Link) where
  -- `recover` at each of these times.
  unfoldable pub tried : Core → link.Carrier → List ℕ → Core × link.Carrier
  tried c l [] = (c, l)
  tried c l (now ∷ rest) = let (c', l') = recover message link c l now in tried c' l' rest

  -- At each of the times the wait is over.
  unfoldable pub AreTries : Core → link.Carrier → List ℕ → Type 0
  AreTries c l [] = Unit {0}
  AreTries c l (now ∷ rest) =
      let (c', l') = recover message link c l now in
      (waits now c.reconnect_at ≡ false) × AreTries c' l' rest

  -- An attempt that fails.
  recover_lost :
      (c : Core) (l : link.Carrier) (now : ℕ) (e : Dongle.Error)
      → ltb c.failures_in_a_row poll_failures ≡ false
      → waits now c.reconnect_at ≡ false
      → (link.reconnect l (leb reconnect_max_wait c.reconnect_wait)).0 ≡ err e
      → let (c', l') = recover message link c l now in
        (c'.reconnect_wait ≡ min (c.reconnect_wait * 2) reconnect_max_wait)
        × (c'.reconnect_at ≡ some (now + c.reconnect_wait))
        × (c'.failures_in_a_row ≡ c.failures_in_a_row)
        × (l' ≡ (link.reconnect l (leb reconnect_max_wait c.reconnect_wait)).1)
  unfolding recover still_lost
  recover_lost c l now e many over lost =
      rw (many, over, lost, recover)
        (
          refl,
          refl,
          ap (λ (x : Settings). x.failures_in_a_row) (fail-Logged c _ now).settings_kept,
          refl,
        )

  tried_from :
      (c : Core) (l : link.Carrier) (times : List ℕ)
      → ((l : link.Carrier) (every_channel : Bool)
          → (e : Dongle.Error) × ((link.reconnect l every_channel).0 ≡ err e))
      → ltb c.failures_in_a_row poll_failures ≡ false
      → AreTries c l times
      → c.reconnect_wait ≤ secs 60
      → let c' = (tried c l times).0 in
        (c'.reconnect_wait ≡ min (c.reconnect_wait * 2 ^ length times) (secs 60))
        × (ltb c'.failures_in_a_row poll_failures ≡ false)
  unfolding tried AreTries
  tried_from c l [] never many over h = (omega arith, many)
  tried_from c l (now ∷ rest) never many over h =
      let (e, lost) = never l (leb reconnect_max_wait c.reconnect_wait) in
      let (wait, at, failures, link') = recover_lost c l now e many over.0 lost in
      let (c', l') = recover message link c l now in
      let (ends, still) =
        tried_from c' l' rest never (rw failures many) over.1 (omega (arith, wait)) in
      (
        ends
            ∙ rw wait (
                simp unary_clauses
                  (doubled c.reconnect_wait (2 ^ length rest) (pow_pos (length rest)))),
        still,
      )

  -- Where no reconnect succeeds, after any number of failed attempts the next one, once its time
  -- has come, scans every channel exactly from the fifth failure on, and the one after it waits two
  -- seconds doubled by each failure before, at most a minute.
  pub tried-recover :
      (c : Core) (l : link.Carrier) (times : List ℕ) (now : ℕ)
      → ((l : link.Carrier) (every_channel : Bool)
          → (e : Dongle.Error) × ((link.reconnect l every_channel).0 ≡ err e))
      → c.reconnect_wait ≡ secs 2
      → ltb c.failures_in_a_row poll_failures ≡ false
      → AreTries c l times
      → waits now (tried c l times).0.reconnect_at ≡ false
      → let (c1, l1) = tried c l times in
        let (c2, l2) = recover message link c1 l1 now in
        (l2 ≡ (link.reconnect l1 (leb 5 (length times))).1)
        × (c2.reconnect_at ≡ some (now + min (secs 2 * 2 ^ length times) (secs 60)))
  tried-recover c l times now never first many over due =
      let (c1, l1) = tried c l times in
      let (ends, still) = tried_from c l times never many over (omega (arith, first)) in
      let wait : c1.reconnect_wait ≡ min (secs 2 * 2 ^ length times) (secs 60) =
        ends ∙ rw first refl in
      let scope : leb reconnect_max_wait c1.reconnect_wait ≡ leb 5 (length times) =
        rw wait (capped (length times)) in
      let (e, lost) = never l1 (leb reconnect_max_wait c1.reconnect_wait) in
      let (wait', at, failures, link') = recover_lost c1 l1 now e still due lost in
      (link' ∙ ap (λ every. (link.reconnect l1 every).1) scope, at ∙ ap (λ w. some (now + w)) wait)
